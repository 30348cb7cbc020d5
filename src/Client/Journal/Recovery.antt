-- ===== src/Client/Journal/Recovery.antt =====
-- What a journal is after a restart.
use durable_streams_rust.Prelude.{
  ℕ, zero, suc, ◌≤◌, ◌<◌, ◌≡◌, refl, sym, ap, ◌∙◌, subst, Bool, true, false, Option, List, [], ◌∷◌,
  ◌++◌, Str, length, take, if◌then◌else◌, leb, u32_mod, arith, ◌⊎◌, inl, inr,
}
use durable_streams_rust.Client.Journal.{
  JournalDirection, JournalRecord, ProducerJournalProgress, JournalError, ReplayState,
}
use durable_streams_rust.Client.Journal.Scan.{commit_batch, finish_scan, commit_valid_prefix}
use durable_streams_rust.Client.Journal.File.{
  JsonJournal, batch_record, batch_records, write_records, appended, append_written, append_values,
}
use durable_streams_rust.Client.Journal.Batches.{
  Reads-end, replayed_counted, IsWhole, IsReplayed, state_of, within, Reads-batch,
}
use durable_streams_rust.Client.Journal.Leftovers.{
  length-batch_records, take-batch_records, finish_batch, incomplete_batch, stale_batch,
}

length-take : (m : ℕ) (vs : List Str) → length (take m vs) ≤ m
length-take zero vs = omega arith
length-take (suc m) [] = omega arith
length-take (suc m) (v ∷ vs) = omega (arith, length-take m vs)

-- The replay gives the journal's state.
commit_valid_prefix-state_of :
    (rs : List JournalRecord) (j : JsonJournal)
    → IsReplayed rs j
    → commit_valid_prefix rs ≡ state_of j
unfolding IsReplayed commit_valid_prefix
commit_valid_prefix-state_of rs j (s, reads, whole, counted, e) =
    ap finish_scan (Reads-end reads) ∙ e

appended-IsReplayed :
    (j : JsonJournal) (direction : JournalDirection) (next_offset : Option Str)
    (producer : Option ProducerJournalProgress) (now : ℕ) (rs : List JournalRecord) (value : Str)
    (values : List Str) (file : Str)
    → IsReplayed rs j
    → let records =
        batch_records j direction next_offset producer now
          (suc (length values))
          0
          (value ∷ values) in
      IsReplayed (rs ++ records) (appended j records next_offset file)
unfolding IsReplayed batch_records appended commit_batch IsWhole
appended-IsReplayed j direction next_offset producer now rs value values file h =
    let n = suc (length values) in
    let p = batch_record j direction next_offset producer now n 0 value in
    let ps = batch_records j direction next_offset producer now n 1 values in
    let count = ap suc (length-batch_records j direction next_offset producer now n 1 values) in
    (
      within j direction next_offset producer now n (p ∷ ps),
      Reads-batch j direction next_offset producer now n rs value values h,
      count,
      replayed_counted rs j h,
      finish_batch j direction next_offset producer now n p ps count,
    )

inl-inr :
    {a : JournalError} {b : List JournalRecord}
    → ◌≡◌ {A = JournalError ⊎ List JournalRecord} (inl a) (inr b)
    → ⊥
inl-inr q = cc

inr_eq :
    {a b : List JournalRecord} → ◌≡◌ {A = JournalError ⊎ List JournalRecord} (inr a) (inr b) → a ≡ b
inr_eq q = cc

-- What a successful append has done.
append_result :
    (j j' : JsonJournal) (new records : List JournalRecord) (next_offset : Option Str)
    (e : JournalError) (b : Bool) (written : Str × Bool)
    → (if b then (inl e, j) else append_written j new next_offset written) ≡ (inr records, j')
    → (records ≡ new) × ((file : Str) × (j' ≡ appended j new next_offset file))
unfolding append_written
append_result j j' new records next_offset e true written h = absurd (inl-inr (ap (λ x. x.0) h))
append_result j j' new records next_offset e false (file, true) h =
    (inr_eq (ap (λ x. x.0) (sym h)), (file, ap (λ x. x.1) (sym h)))
append_result j j' new records next_offset e false (file, false) h =
    absurd (inl-inr (ap (λ x. x.0) h))

-- If the records of a file replay to a journal, and values are appended to it, then the records
-- with the new ones behind them replay to the journal that the append leaves.
pub append_values-IsReplayed :
    (encode : JournalRecord → Option Str) (j j' : JsonJournal) (direction : JournalDirection)
    (next_offset : Option Str) (producer : Option ProducerJournalProgress) (now : ℕ)
    (rs records : List JournalRecord) (value : Str) (values : List Str)
    → IsReplayed rs j
    → append_values encode j direction (value ∷ values) next_offset producer now ≡ (inr records, j')
    → IsReplayed (rs ++ records) j' × (commit_valid_prefix (rs ++ records) ≡ state_of j')
unfolding append_values
append_values-IsReplayed encode j j' direction next_offset producer now rs records value values h
      e =
    let new =
      batch_records j direction next_offset producer now (suc (length values)) 0 (value ∷ values) in
    let (same, (file, after)) =
      append_result j j' new records next_offset _ (leb u32_mod (suc (length values)))
        (write_records encode j.file new) e in
    let next = appended-IsReplayed j direction next_offset producer now rs value values file h in
    let moved =
      subst (λ (t : List JournalRecord). IsReplayed (rs ++ t) j') (sym same)
        (subst (λ (t : JsonJournal). IsReplayed (rs ++ new) t) (sym after) next) in
    (moved, commit_valid_prefix-state_of (rs ++ records) j' moved)

-- If a crash leaves only some of the records of an append, then the replay gives the state before
-- that append.
pub interrupted_append :
    (j : JsonJournal) (direction : JournalDirection) (next_offset : Option Str)
    (producer : Option ProducerJournalProgress) (now m : ℕ) (rs : List JournalRecord)
    (values : List Str)
    → IsReplayed rs j
    → m < length values
    → commit_valid_prefix
        (rs ++ take m (batch_records j direction next_offset producer now (length values) 0 values))
      ≡ state_of j
unfolding batch_records
interrupted_append j direction next_offset producer now m rs values h short =
    subst (λ (t : List JournalRecord). commit_valid_prefix (rs ++ t) ≡ state_of j)
      (sym (take-batch_records j direction next_offset producer now (length values) m 0 values))
      (first_part m values (length values) short)
  where
    append_nil : (xs : List JournalRecord) → xs ++ [] ≡ xs
    append_nil [] = refl
    append_nil (x ∷ xs) = ap (λ t. x ∷ t) (append_nil xs)

    first_part :
        (m : ℕ) (vs : List Str) (n : ℕ)
        → m < n
        → commit_valid_prefix
            (rs ++ batch_records j direction next_offset producer now n 0 (take m vs))
          ≡ state_of j
    first_part zero vs n short =
        ap commit_valid_prefix (append_nil rs) ∙ commit_valid_prefix-state_of rs j h
    first_part (suc m) [] n short =
        ap commit_valid_prefix (append_nil rs) ∙ commit_valid_prefix-state_of rs j h
    first_part (suc m) (v ∷ vs) n short =
        incomplete_batch j direction next_offset producer now n rs v (take m vs) h
          (omega (arith, length-take m vs, short))

-- If records of a batch stand behind the leftovers of such an append, counted on from the state before
-- it, then the replay stops at the leftovers.
pub commit_valid_prefix-leftovers :
    (j j' : JsonJournal) (direction direction' : JournalDirection)
    (next_offset next_offset' : Option Str) (producer producer' : Option ProducerJournalProgress)
    (now now' m : ℕ) (rs : List JournalRecord) (values : List Str) (value' : Str)
    (values' : List Str)
    → IsReplayed rs j
    → 0 < m
    → m < length values
    → state_of j' ≡ state_of j
    → commit_valid_prefix (
        (rs ++ take m (batch_records j direction next_offset producer now (length values) 0 values))
        ++ batch_records j' direction' next_offset' producer' now'
            (suc (length values'))
            0
            (value' ∷ values'))
      ≡ state_of j
unfolding batch_records batch_record
commit_valid_prefix-leftovers j j' direction direction' next_offset next_offset' producer producer'
      now now' m rs values value' values' h some_left short same =
    subst
      (λ (t : List JournalRecord).
        commit_valid_prefix (
          (rs ++ t)
          ++ batch_records j' direction' next_offset' producer' now' (suc (length values')) 0
              (value' ∷ values'))
        ≡ state_of j)
      (sym (take-batch_records j direction next_offset producer now (length values) m 0 values))
      (behind m values some_left short short)
  where
    behind :
        (m : ℕ) (vs : List Str)
        → 0 < m
        → m < length vs
        → m < length values
        → commit_valid_prefix (
            (rs ++ batch_records j direction next_offset producer now (length values) 0 (take m vs))
            ++ batch_records j' direction' next_offset' producer' now'
                (suc (length values'))
                0
                (value' ∷ values'))
          ≡ state_of j
    behind zero vs p q n = absurd (omega arith)
    behind (suc m) [] p q n = absurd (omega arith)
    behind (suc m) (v ∷ vs) p q n =
        stale_batch j direction next_offset producer now (length values) rs v (take m vs)
          (batch_record j' direction' next_offset' producer' now' (suc (length values')) 0 value')
          (batch_records j' direction' next_offset' producer' now' (suc (length values')) 1 values')
          h (omega (arith, length-take m vs, n))
          (omega (arith, ap (λ (t : ReplayState). t.next_local_seq) same))
