-- ===== src/Examples/Setting.antt =====
-- The values that the examples share.
use durable_streams_rust.Prelude.{
  ℕ, ◌+◌, ◌-◌, ◌*◌, true, false, none, some, List, [], ◌∷◌, Str, text, inr,
}
use durable_streams_rust.Protocol.Producer.{ProducerHeaders}
use durable_streams_rust.Storage.Platform.{Platform}
use durable_streams_rust.Storage.Types.{StreamConfig, StreamOptions, sliding, active}
use durable_streams_rust.Storage.Memory.Entry.{StreamEntry, InMemoryStorage}

-- A JSON library in which every text is a value, and a calendar without an end.
abbrev pub plain : Platform Str
plain = record {
  add_seconds = λ now seconds. some (now + seconds * 1000000000);
  minus_seconds = λ now seconds. now - seconds * 1000000000;
  from_slice = λ bytes. inr bytes;
  as_array = λ v. none;
  to_vec = λ v. v;
  is_header_value = λ s. true;
}

abbrev pub ticking : ℕ → ℕ
ticking i = 1000 + i

abbrev pub orders : Str
orders = text "o"

abbrev pub plain_text : Str
plain_text = text "t"

abbrev pub plain_options : StreamOptions
plain_options = record { content_type = plain_text; expiry = sliding 60; created_closed = false }

abbrev pub two_messages : List Str
two_messages = text "a" ∷ text "bc" ∷ []

abbrev pub orders_config : StreamConfig
orders_config = record {
  content_type = plain_text;
  ttl_seconds = none;
  expires_at = none;
  created_closed = false;
}

-- An empty stream without a deadline.
abbrev pub orders_entry : StreamEntry
orders_entry = record {
  config = orders_config;
  messages = [];
  closed = false;
  next_read_seq = 0;
  next_byte_offset = 0;
  total_bytes = 0;
  created_at = 0;
  updated_at = none;
  producers = [];
  notify = 0;
  last_seq = none;
  fork_info = none;
  ref_count = 0;
  state = active;
}

-- A store with that stream.
abbrev pub shop : InMemoryStorage
shop = record {
  subscription_state = none;
  streams = (orders, orders_entry) ∷ [];
  total_bytes = 0;
  max_total_bytes = 100;
  max_stream_bytes = 50;
}

abbrev pub writer : ProducerHeaders
writer = record { id = text "w"; epoch = 1; seq = 0 }
