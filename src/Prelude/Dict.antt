-- ===== src/Prelude/Dict.antt =====
-- `HashMap<String, V>` as an association list: the first entry of a key is its value. The order of
-- the list stands for the map's unspecified order of iteration.
use durable_streams_rust.Prelude.{
  ℕ, ◌+◌, ◌≡◌, refl, ◌∙◌, subst, inl, inr, Bool-cases, false, Option, none, some, List, [], ◌∷◌,
  Str, str_eq, str_eq_iff, if◌then◌else◌, arith, All,
}

abbrev pub Dict {ℓ} : Type ℓ → Type ℓ
Dict V = List (Str × V)

module _ {ℓ} {V : Type ℓ} where
  -- m.get(k)
  unfoldable pub lookup : Str → Dict V → Option V
  lookup k [] = none
  lookup k ((j, v) ∷ m) = if str_eq j k then some v else lookup k m

  -- m.insert(k, v)
  unfoldable pub insert : Str → V → Dict V → Dict V
  insert k v [] = (k, v) ∷ []
  insert k v ((j, w) ∷ m) = if str_eq j k then (k, v) ∷ m else (j, w) ∷ insert k v m

  -- m.remove(k)
  unfoldable pub remove : Str → Dict V → Dict V
  remove k [] = []
  remove k ((j, w) ∷ m) = if str_eq j k then m else (j, w) ∷ remove k m

  -- Every key stands once.
  abbrev Fresh : Str → Dict V → Type 0
  Fresh k [] = Unit
  Fresh k ((j, w) ∷ m) = (str_eq j k ≡ false) × Fresh k m

  abbrev pub HasUniqueKeys : Dict V → Type 0
  HasUniqueKeys [] = Unit
  HasUniqueKeys ((j, w) ∷ m) = Fresh j m × HasUniqueKeys m

  -- The sum of a measure over the values.
  abbrev pub sum_by : (V → ℕ) → Dict V → ℕ
  sum_by f [] = 0
  sum_by f ((j, w) ∷ m) = f w + sum_by f m

  abbrev pub measure_or_zero : (V → ℕ) → Option V → ℕ
  measure_or_zero f none = 0
  measure_or_zero f (some v) = f v

  -- A property of every value.
  abbrev pub AllValues {κ} : (V → Type κ) → Dict V → Type κ
  AllValues P = All (λ e. P e.1)

module _ {ℓ} {V : Type ℓ} where
  pub lookup-insert :
      (k j : Str) (v : V) (m : Dict V)
      → lookup j (insert k v m) ≡ (if str_eq k j then some v else lookup j m)
  unfolding lookup insert
  lookup-insert k j v [] = refl
  lookup-insert k j v ((i, w) ∷ m) =
      ground (arith, lookup-insert k j v m, str_eq_iff i k, str_eq_iff i j, str_eq_iff k j)

  lookup-remove_ne :
      (k j : Str) (m : Dict V) → str_eq k j ≡ false → lookup j (remove k m) ≡ lookup j m
  unfolding lookup remove
  lookup-remove_ne k j [] h = refl
  lookup-remove_ne k j ((i, w) ∷ m) h =
      ground (arith, lookup-remove_ne k j m h, str_eq_iff i k, str_eq_iff i j, str_eq_iff k j)

  lookup-Fresh : (k : Str) (m : Dict V) → Fresh k m → lookup k m ≡ none
  unfolding lookup
  lookup-Fresh k [] h = refl
  lookup-Fresh k ((j, w) ∷ m) h = rw h.0 (lookup-Fresh k m h.1)

  pub lookup-remove_self : (k : Str) (m : Dict V) → HasUniqueKeys m → lookup k (remove k m) ≡ none
  unfolding lookup remove
  lookup-remove_self k [] h = refl
  lookup-remove_self k ((j, w) ∷ m) h =
      ground (arith, lookup-remove_self k m h.1, lookup-Fresh j m h.0, str_eq_iff j k)

  -- A key that is absent stays absent when another entry is taken out, or one that is there is
  -- stored anew.
  pub absent-remove : (k j : Str) (m : Dict V) → lookup j m ≡ none → lookup j (remove k m) ≡ none
  unfolding lookup remove
  absent-remove k j [] h = refl
  absent-remove k j ((i, w) ∷ m) h = ground (arith, absent-remove k j m)

  pub absent-insert :
      (k j : Str) {v : V} (v' : V) (m : Dict V)
      → lookup j m ≡ none
      → lookup k m ≡ some v
      → lookup j (insert k v' m) ≡ none
  absent-insert k j v' m h found = lookup-insert k j v' m ∙ ground (arith, str_eq_iff k j)

  Fresh-insert :
      (k j : Str) (v : V) (m : Dict V) → str_eq k j ≡ false → Fresh j m → Fresh j (insert k v m)
  unfolding insert
  Fresh-insert k j v [] e h = (e, tt)
  Fresh-insert k j v ((i, w) ∷ m) e h = ground (arith, Fresh-insert k j v m e h.1, h.0, h.1)

  Fresh-remove : (k j : Str) (m : Dict V) → Fresh j m → Fresh j (remove k m)
  unfolding remove
  Fresh-remove k j [] h = tt
  Fresh-remove k j ((i, w) ∷ m) h = ground (arith, Fresh-remove k j m h.1, h.0, h.1)

  pub insert-HasUniqueKeys :
      (k : Str) (v : V) (m : Dict V) → HasUniqueKeys m → HasUniqueKeys (insert k v m)
  unfolding insert
  insert-HasUniqueKeys k v [] h = (tt, tt)
  insert-HasUniqueKeys k v ((j, w) ∷ m) h = elim (Bool-cases (str_eq j k)) [
    | inl hit ↦ rw hit (subst (λ (t : Str). Fresh t m) ((str_eq_iff j k).0 hit) h.0, h.1)
    | inr miss ↦ rw miss (
      Fresh-insert k j v m (ground (arith, str_eq_iff k j, str_eq_iff j k)) h.0,
      insert-HasUniqueKeys k v m h.1,
    )
  ]

  pub remove-HasUniqueKeys : (k : Str) (m : Dict V) → HasUniqueKeys m → HasUniqueKeys (remove k m)
  unfolding remove
  remove-HasUniqueKeys k [] h = tt
  remove-HasUniqueKeys k ((j, w) ∷ m) h = elim (Bool-cases (str_eq j k)) [
    | inl hit ↦ rw hit h.1
    | inr miss ↦ rw miss (Fresh-remove k j m h.0, remove-HasUniqueKeys k m h.1)
  ]

  pub sum_by-insert :
      (f : V → ℕ) (k : Str) (v : V) (m : Dict V)
      → sum_by f (insert k v m) + measure_or_zero f (lookup k m) ≡ sum_by f m + f v
  unfolding lookup insert
  sum_by-insert f k v [] = omega arith
  sum_by-insert f k v ((j, w) ∷ m) = ground (arith, sum_by-insert f k v m)

  pub sum_by-remove :
      (f : V → ℕ) (k : Str) (m : Dict V)
      → sum_by f (remove k m) + measure_or_zero f (lookup k m) ≡ sum_by f m
  unfolding lookup remove
  sum_by-remove f k [] = omega arith
  sum_by-remove f k ((j, w) ∷ m) = ground (arith, sum_by-remove f k m)

module _ {ℓ κ} {V : Type ℓ} (P : V → Type κ) where
  pub AllValues-lookup : (k : Str) (m : Dict V) {v : V} → AllValues P m → lookup k m ≡ some v → P v
  unfolding lookup
  AllValues-lookup k [] h e = cc
  AllValues-lookup k ((j, w) ∷ m) {v} h e = elim (Bool-cases (str_eq j k)) [
    | inl hit ↦ let same : w ≡ v = ground arith in subst P same h.0
    | inr miss ↦ AllValues-lookup k m h.1 (ground arith)
  ]

  pub AllValues-insert :
      (k : Str) (v : V) (m : Dict V) → AllValues P m → P v → AllValues P (insert k v m)
  unfolding insert
  AllValues-insert k v [] h p = (p, tt)
  AllValues-insert k v ((j, w) ∷ m) h p = elim (Bool-cases (str_eq j k)) [
    | inl hit ↦ rw hit (p, h.1)
    | inr miss ↦ rw miss (h.0, AllValues-insert k v m h.1 p)
  ]

  pub AllValues-remove : (k : Str) (m : Dict V) → AllValues P m → AllValues P (remove k m)
  unfolding remove
  AllValues-remove k [] h = tt
  AllValues-remove k ((j, w) ∷ m) h = elim (Bool-cases (str_eq j k)) [
    | inl hit ↦ rw hit h.1
    | inr miss ↦ rw miss (h.0, AllValues-remove k m h.1)
  ]
