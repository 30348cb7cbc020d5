-- ===== src/Examples/Names.antt =====
-- The theorems on names and patterns at concrete texts.
use durable_streams_rust.Prelude.{◌≡◌, ◌↔◌, true, text, inr}
use durable_streams_rust.Prelude.Split.{split}
use durable_streams_rust.Protocol.StreamName.{StreamNameLimits, validate}
use durable_streams_rust.Protocol.StreamName.Valid.{IsAllowed, validate-IsAllowed}
use durable_streams_rust.Subscriptions.Glob.{glob_matches}
use durable_streams_rust.Subscriptions.Glob.Meaning.{Matches, glob_matches-Matches}

glob_example :
    (glob_matches (text "events/**/done") (text "events/a/b/done") ≡ true)
    ↔ Matches (split b'/' (text "events/**/done")) (split b'/' (text "events/a/b/done"))
glob_example = glob_matches-Matches (text "events/**/done") (text "events/a/b/done")

abbrev small_limits : StreamNameLimits
small_limits = record { max_bytes = 20; max_segments = 3 }

name_example :
    (validate (text "events/../a") small_limits ≡ inr tt)
    ↔ IsAllowed (text "events/../a") small_limits
name_example = validate-IsAllowed (text "events/../a") small_limits
