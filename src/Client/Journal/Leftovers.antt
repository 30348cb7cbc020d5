-- ===== src/Client/Journal/Leftovers.antt =====
-- Appends that finish, appends that a crash cuts short, and what becomes of the records after those.
use durable_streams_rust.Prelude.{
  ℕ, zero, suc, ◌+◌, ◌<◌, ◌≡◌, refl, ap, ◌∙◌, Option, List, [], ◌∷◌, ◌++◌, Str, length, take, arith,
}
use durable_streams_rust.Client.Journal.{JournalDirection, JournalRecord, ProducerJournalProgress}
use durable_streams_rust.Client.Journal.Scan.{
  commit_batch, Next, go_on, stop, commit_pending, scan_record, scan, finish_scan,
  commit_valid_prefix,
}
use durable_streams_rust.Client.Journal.File.{JsonJournal, batch_record, batch_records}
use durable_streams_rust.Client.Journal.Batches.{
  Reads-scan, Reads-end, replayed_counted, IsReplayed, state_of, within, batch, Reads-batch,
}

module _ (j : JsonJournal) (direction : JournalDirection) (next_offset : Option Str)
    (producer : Option ProducerJournalProgress) (now batch_len : ℕ) where
  pub length-batch_records :
      (index : ℕ) (values : List Str)
      → length (batch_records j direction next_offset producer now batch_len index values)
        ≡ length values
  unfolding batch_records
  length-batch_records index [] = refl
  length-batch_records index (v ∷ values) = ap suc (length-batch_records (suc index) values)

  pub take-batch_records :
      (m index : ℕ) (values : List Str)
      → take m (batch_records j direction next_offset producer now batch_len index values)
        ≡ batch_records j direction next_offset producer now batch_len index (take m values)
  unfolding batch_records
  take-batch_records zero index values = refl
  take-batch_records (suc m) index [] = refl
  take-batch_records (suc m) index (v ∷ values) =
      ap (λ t. batch_record j direction next_offset producer now batch_len index v ∷ t)
        (take-batch_records m (suc index) values)

  -- A scan that stands in the middle of the batch commits none of it.
  finish_within :
      (pending : List JournalRecord)
      → (length pending ≡ batch_len → ⊥)
      → finish_scan (within j direction next_offset producer now batch_len pending) ≡ state_of j
  unfolding finish_scan
  finish_within [] n = refl
  finish_within (p ∷ ps) n = ground (arith, n)

  -- One that has read all of it commits it.
  pub finish_batch :
      (p : JournalRecord) (ps : List JournalRecord)
      → length (p ∷ ps) ≡ batch_len
      → finish_scan (within j direction next_offset producer now batch_len (p ∷ ps))
        ≡ commit_batch (state_of j) (p ∷ ps) j.next_batch_seq next_offset
  unfolding finish_scan commit_pending
  finish_batch p ps e = ground (arith, e)

  pub incomplete_batch :
      (rs : List JournalRecord) (value : Str) (values : List Str)
      → IsReplayed rs j
      → suc (length values) < batch_len
      → commit_valid_prefix
          (rs ++ batch j direction next_offset producer now batch_len 0 (value ∷ values))
        ≡ state_of j
  unfolding commit_valid_prefix scan
  incomplete_batch rs value values h short =
      ap finish_scan
        (Reads-end (Reads-batch j direction next_offset producer now batch_len rs value values h))
      ∙ finish_within (batch j direction next_offset producer now batch_len 0 (value ∷ values))
          (λ e. absurd (omega (arith, e, short, length-batch_records 0 (value ∷ values))))

  stops :
      (pending : List JournalRecord) (r : JournalRecord)
      → r.local_seq < length j.records + length pending
      → scan_record (within j direction next_offset producer now batch_len pending) r
        ≡ stop (within j direction next_offset producer now batch_len pending)
  unfolding scan_record
  stops pending r h = ground (arith, h)

  -- A record that repeats the sequence number of a pending one stops the replay.
  pub stale_batch :
      (rs : List JournalRecord) (value : Str) (values : List Str) (r : JournalRecord)
      (more : List JournalRecord)
      → IsReplayed rs j
      → suc (length values) < batch_len
      → r.local_seq ≡ j.next_local_seq
      → commit_valid_prefix (
          (rs ++ batch j direction next_offset producer now batch_len 0 (value ∷ values))
          ++ (r ∷ more))
        ≡ state_of j
  unfolding commit_valid_prefix scan
  stale_batch rs value values r more h short same =
      let first = batch j direction next_offset producer now batch_len 0 (value ∷ values) in
      let at = within j direction next_offset producer now batch_len first in
      let total = replayed_counted rs j h in
      let count = length-batch_records 0 (value ∷ values) in
      ap finish_scan (
        Reads-scan (r ∷ more)
          (Reads-batch j direction next_offset producer now batch_len rs value values h)
        ∙ ap (λ (n : Next). elim n [ go_on s' ↦ scan s' more | stop s' ↦ s' ])
            (stops first r (omega (arith, same, total, count))))
      ∙ finish_within first (λ e. absurd (omega (arith, e, short, count)))
