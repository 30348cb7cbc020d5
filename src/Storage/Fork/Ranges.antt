-- ===== src/Storage/Fork/Ranges.antt =====
-- storage/fork.rs: the range of messages that a read takes is a range of the slice.
use durable_streams_rust.Prelude.{
  ℕ, ◌≤◌, Option, none, some, List, [], ◌∷◌, Bool, Bool-cases, inl, inr, true, false, length, arith,
  if◌then◌else◌,
}
use durable_streams_rust.Protocol.Offset.{Offset, is_start, offset_lt}
use durable_streams_rust.Storage.Types.{Message}
use durable_streams_rust.Storage.Fork.{partition_point, message_range}

partition_point-le :
    (bound : Offset) (messages : List Message) → partition_point bound messages ≤ length messages
unfolding partition_point
partition_point-le bound [] = omega arith
partition_point-le bound (m ∷ ms) = elim (Bool-cases (offset_lt m.offset bound)) [
  | inl before ↦ rw before (omega (arith, partition_point-le bound ms))
  | inr after ↦ rw after (omega arith)
]

first-le : (b : Bool) (n m : ℕ) → n ≤ m → (if b then 0 else n) ≤ m
first-le true n m h = omega arith
first-le false n m h = h

-- The range of a read starts before it ends and ends within the messages, for every offset and every
-- bound: taking the slice cannot fail.
pub message_range-le :
    (messages : List Message) (from : Offset) (up_to : Option Offset)
    → ((message_range messages from up_to).0 ≤ (message_range messages from up_to).1)
      × ((message_range messages from up_to).1 ≤ length messages)
unfolding message_range
message_range-le messages from none =
    let first =
      first-le (is_start from) (partition_point from messages) (length messages)
        (partition_point-le from messages) in
    (omega arith, omega (arith, first))
message_range-le messages from (some bound) =
    let first =
      first-le (is_start from) (partition_point from messages) (length messages)
        (partition_point-le from messages) in
    (omega arith, omega (arith, first, partition_point-le bound messages))
