-- ===== src/Client/Journal/Batches.antt =====
-- How the replay reads the batches that `append_values` writes.
use durable_streams_rust.Prelude.{
  ℕ, suc, ◌+◌, ◌≡◌, refl, sym, ap, ◌∙◌, subst, true, Option, none, some, List, [], ◌∷◌, ◌++◌, Str,
  length, length-append, arith, str_eq_refl,
}
use durable_streams_rust.Client.Journal.{
  JournalDirection, JournalRecord, ProducerJournalProgress, ReplayState,
}
use durable_streams_rust.Client.Journal.Scan.{
  commit_batch, Scan, first_scan, Next, go_on, stop, offset_eq, push_record, start_batch,
  commit_pending, next_batch, scan_record, scan, finish_scan,
}
use durable_streams_rust.Client.Journal.File.{JsonJournal, batch_record, batch_records}

-- The loop reads the records without a break.
pub data Reads : Scan → List JournalRecord → Scan → Type 0 where
  read_all : (s : Scan) → Reads s [] s
  read_one :
      (s : Scan) (r : JournalRecord) {t u : Scan} {rs : List JournalRecord}
      → scan_record s r ≡ go_on t
      → Reads t rs u
      → Reads s (r ∷ rs) u

pub Reads-scan :
    {s t : Scan} {rs : List JournalRecord} (more : List JournalRecord)
    → Reads s rs t
    → scan s (rs ++ more) ≡ scan t more
unfolding scan
Reads-scan more (read_all s) = refl
Reads-scan more (read_one s r {t} {u} {rs} h rest) =
    ap (λ (n : Next). elim n [ go_on s' ↦ scan s' (rs ++ more) | stop s' ↦ s' ]) h
    ∙ Reads-scan more rest

pub Reads-end : {s t : Scan} {rs : List JournalRecord} → Reads s rs t → scan s rs ≡ t
unfolding scan
Reads-end (read_all s) = refl
Reads-end (read_one s r {t} {u} {rs} h rest) =
    ap (λ (n : Next). elim n [ go_on s' ↦ scan s' rs | stop s' ↦ s' ]) h ∙ Reads-end rest

pub Reads-append :
    {s t u : Scan} {rs more : List JournalRecord}
    → Reads s rs t
    → Reads t more u
    → Reads s (rs ++ more) u
Reads-append (read_all s) f = f
Reads-append (read_one s r h rest) f = read_one s r h (Reads-append rest f)

-- No batch is open: none is pending, or the pending one has all its records.
unfoldable pub IsWhole : List JournalRecord → ℕ → Type 0
IsWhole [] batch_len = Unit
IsWhole (r ∷ rs) batch_len = length (r ∷ rs) ≡ batch_len

abbrev pub state_of : JsonJournal → ReplayState
state_of j = record {
  records = j.records;
  resume_offset = j.resume_offset;
  next_local_seq = j.next_local_seq;
  next_batch_seq = j.next_batch_seq;
}

-- The records make up whole batches, and the journal is in the state that their replay gives.
unfoldable pub IsReplayed : List JournalRecord → JsonJournal → Type 0
IsReplayed rs j =
    (s : Scan) × Reads first_scan rs s
    × IsWhole s.pending s.batch_len
    × (s.state.next_local_seq ≡ length s.state.records)
    × (finish_scan s ≡ state_of j)

offset_eq_refl : (o : Option Str) → offset_eq o o ≡ true
unfolding offset_eq
offset_eq_refl none = refl
offset_eq_refl (some a) = str_eq_refl a

-- A whole batch is closed by the first record of the next.
starts :
    (state : ReplayState) (pending : List JournalRecord) (batch_seq batch_len : ℕ)
    (next_offset : Option Str) (r : JournalRecord)
    → IsWhole pending batch_len
    → state.next_local_seq ≡ length state.records
    → let s : Scan = record {
      state = state;
      pending = pending;
      batch_seq = batch_seq;
      batch_len = batch_len;
      next_offset = next_offset;
    } in
      r.local_seq ≡ (finish_scan s).next_local_seq
      → r.batch_seq ≡ (finish_scan s).next_batch_seq
      → r.batch_index ≡ 0
      → scan_record s r
        ≡ go_on (record {
          state = finish_scan s;
          pending = r ∷ [];
          batch_seq = r.batch_seq;
          batch_len = r.batch_len;
          next_offset = r.next_offset;
        })
unfolding finish_scan scan_record start_batch push_record next_batch commit_pending commit_batch
    IsWhole
starts state [] batch_seq batch_len next_offset r whole counted l b i =
    ground (arith, l, b, i, counted)
starts state (p ∷ ps) batch_seq batch_len next_offset r whole counted l b i =
    ground (arith, whole, counted, l, b, i)

-- A further record of the batch.
continues :
    (state : ReplayState) (p : JournalRecord) (ps : List JournalRecord) (batch_seq batch_len : ℕ)
    (next_offset : Option Str) (r : JournalRecord)
    → r.local_seq ≡ length state.records + length (p ∷ ps)
    → r.batch_seq ≡ batch_seq
    → r.batch_index ≡ length (p ∷ ps)
    → r.batch_len ≡ batch_len
    → r.next_offset ≡ next_offset
    → let s : Scan = record {
      state = state;
      pending = p ∷ ps;
      batch_seq = batch_seq;
      batch_len = batch_len;
      next_offset = next_offset;
    } in
      scan_record s r ≡ go_on (record s { pending = (p ∷ ps) ++ (r ∷ []) })
unfolding scan_record push_record
continues state p ps batch_seq batch_len next_offset r l b i n o =
    let same : offset_eq next_offset r.next_offset ≡ true = rw o (offset_eq_refl next_offset) in
    ground (arith, l, b, i, n, same)

-- The sequence numbers count the records.
finish_counted :
    (state : ReplayState) (pending : List JournalRecord) (batch_seq batch_len : ℕ)
    (next_offset : Option Str)
    → state.next_local_seq ≡ length state.records
    → let f = finish_scan (record {
      state = state;
      pending = pending;
      batch_seq = batch_seq;
      batch_len = batch_len;
      next_offset = next_offset;
    }) in
      f.next_local_seq ≡ length f.records
unfolding finish_scan commit_pending commit_batch
finish_counted state pending batch_seq batch_len next_offset h =
    let e = length-append state.records pending in ground (arith, h, e)

-- The journal's numbers count its records.
pub replayed_counted :
    (rs : List JournalRecord) (j : JsonJournal)
    → IsReplayed rs j
    → j.next_local_seq ≡ length j.records
unfolding IsReplayed
replayed_counted rs j (s, reads, whole, counted, e) =
    subst (λ (t : ReplayState). t.next_local_seq ≡ length t.records) e
      (finish_counted s.state s.pending s.batch_seq s.batch_len s.next_offset counted)

snoc_append :
    (xs : List JournalRecord) (r : JournalRecord) (rest : List JournalRecord)
    → (xs ++ (r ∷ [])) ++ rest ≡ xs ++ (r ∷ rest)
snoc_append [] r rest = refl
snoc_append (x ∷ xs) r rest = ap (λ t. x ∷ t) (snoc_append xs r rest)

module _ (j : JsonJournal) (direction : JournalDirection) (next_offset : Option Str)
    (producer : Option ProducerJournalProgress) (now batch_len : ℕ) where
  -- The scan in the middle of the batch.
  abbrev pub within : List JournalRecord → Scan
  within pending = record {
    state = state_of j;
    pending = pending;
    batch_seq = j.next_batch_seq;
    batch_len = batch_len;
    next_offset = next_offset;
  }

  abbrev pub batch : ℕ → List Str → List JournalRecord
  batch index values = batch_records j direction next_offset producer now batch_len index values

  Reads-rest :
      (p : JournalRecord) (ps : List JournalRecord) (index : ℕ) (values : List Str)
      → index ≡ length (p ∷ ps)
      → j.next_local_seq ≡ length j.records
      → Reads (within (p ∷ ps)) (batch index values) (within ((p ∷ ps) ++ batch index values))
  unfolding batch_records batch_record
  Reads-rest p ps index [] e counted =
      subst (λ (t : List JournalRecord). Reads (within (p ∷ ps)) [] (within t))
        (append_nil (p ∷ ps)) (read_all (within (p ∷ ps)))
    where
      append_nil : (xs : List JournalRecord) → xs ≡ xs ++ []
      append_nil [] = refl
      append_nil (x ∷ xs) = ap (λ t. x ∷ t) (append_nil xs)
  Reads-rest p ps index (payload ∷ values) e counted =
      let r = batch_record j direction next_offset producer now batch_len index payload in
      let ps' = ps ++ (r ∷ []) in
      let rest = batch (suc index) values in
      read_one (within (p ∷ ps)) r
        (continues (state_of j) p ps j.next_batch_seq batch_len next_offset r
          (omega (arith, e, counted)) refl e refl refl)
        (subst (λ (t : List JournalRecord). Reads (within (p ∷ ps')) rest (within t))
          (snoc_append (p ∷ ps) r rest)
          (Reads-rest p ps' (suc index) values (omega (arith, e, length-append ps (r ∷ [])))
            counted))

  -- The state after whole batches, and the first records of one more.
  pub Reads-batch :
      (rs : List JournalRecord) (value : Str) (values : List Str)
      → IsReplayed rs j
      → Reads first_scan (rs ++ batch 0 (value ∷ values)) (within (batch 0 (value ∷ values)))
  unfolding IsReplayed batch_records batch_record
  Reads-batch rs value values (s, reads, whole, counted, e) =
      let r = batch_record j direction next_offset producer now batch_len 0 value in
      let local = ap (λ (t : ReplayState). t.next_local_seq) e in
      let seq = ap (λ (t : ReplayState). t.next_batch_seq) e in
      let total = replayed_counted rs j (s, reads, whole, counted, e) in
      Reads-append reads (
        read_one s r
          (starts s.state s.pending s.batch_seq s.batch_len s.next_offset r whole counted
              (omega (arith, local)) (sym seq) refl
            ∙ ap (λ (t : ReplayState). go_on (record (within (r ∷ [])) { state = t })) e)
          (Reads-rest r [] 1 values refl total))
