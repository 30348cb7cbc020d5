-- ===== src/Prelude/Ordered.antt =====
-- `BTreeMap<String, V>` as a list of entries in the order of their keys; it is read by the `lookup`
-- of `Dict`, and `remove` is that of `Dict` too.
use durable_streams_rust.Prelude.{
  ◌≡◌, ◌≢◌, refl, sym, ap, ◌∙◌, inl, inr, Bool-cases, false, some, [], ◌∷◌, Str, str_eq, str_eq_iff,
  str_cmp, str_cmp-eq, str_cmp_refl, Ordering, if◌then◌else◌, arith,
}
use durable_streams_rust.Prelude.Dict.{Dict, lookup}

eq_gt : Ordering.eq ≢ Ordering.gt
eq_gt h = cc

str_cmp_gt_ne : (k j : Str) → str_cmp k j ≡ Ordering.gt → str_eq j k ≡ false
str_cmp_gt_ne k j h = elim (Bool-cases (str_eq j k)) [
  | inl e ↦
      absurd (eq_gt (sym (str_cmp_refl k) ∙ ap (λ t. str_cmp k t) (sym ((str_eq_iff j k).0 e)) ∙ h))
  | inr e ↦ e
]

module _ {ℓ} {V : Type ℓ} where
  -- m.insert(k, v)
  unfoldable pub put : Str → V → Dict V → Dict V
  put k v [] = (k, v) ∷ []
  put k v ((j, w) ∷ m) =
      let rest = put k v m in
      elim (str_cmp k j) [
        | Ordering.lt ↦ (k, v) ∷ (j, w) ∷ m
        | Ordering.eq ↦ (k, v) ∷ m
        | Ordering.gt ↦ (j, w) ∷ rest
      ]

  pub lookup-put :
      (k j : Str) (v : V) (m : Dict V)
      → lookup j (put k v m) ≡ (if str_eq k j then some v else lookup j m)
  unfolding lookup put
  lookup-put k j v [] = refl
  lookup-put k j v ((i, w) ∷ m) = ground (
    arith,
    lookup-put k j v m,
    str_eq_iff i k,
    str_eq_iff i j,
    str_eq_iff k j,
    str_cmp-eq k i,
    str_cmp_gt_ne k i,
  )
