-- ===== src/Subscriptions/Cursors.antt =====
-- The cursors of a subscription under acknowledgements.
use durable_streams_rust.Prelude.{
  ℕ, ◌≡◌, ◌+◌, refl, sym, ap, ◌∙◌, subst, Bool, Bool-cases, true, false, ◌||◌, Option, none, some,
  List, [], ◌∷◌, Str, if◌then◌else◌, arith, str_eq, str_eq_iff, str_cmp, str_cmp_refl, ◌⊎◌, inl,
  inr, text, All,
}
use durable_streams_rust.Prelude.Dict.{Dict, lookup}
use durable_streams_rust.Prelude.Ordered.{lookup-put}
use durable_streams_rust.Protocol.Offset.{from_str, is_start, is_now}
use durable_streams_rust.Subscriptions.Api.{
  err, ok, Every, Every->>=, Every->>, Every-if, Every-ok, Every-weaken, ok_or, fenced,
  invalid_json,
}
use durable_streams_rust.Subscriptions.Model.{Link, Subscription, str_gt, str_max}
use durable_streams_rust.Subscriptions.Tokens.{Primitives, verify}
use durable_streams_rust.Subscriptions.Completion.{
  Ack, Completion, Response, bearer, is_fenced, parsed, beyond, check_ack, check_acks, raise,
  apply_acks, apply_completion, complete, extend,
}

-- `a <= b` of two texts.
abbrev pub AtMost : Str → Str → Type 0
AtMost a b = str_gt a b ≡ false

-- How a link may move: it stays linked, its cursor does not fall, and a cursor that moved is the
-- offset of an acknowledgement, which is at most the stream's tail.
abbrev pub Moved : Dict Str → Str → Link → Link → Type 0
Moved streams path old new =
    (new.explicit ≡ old.explicit)
    × AtMost old.acked_offset new.acked_offset
    × ((new.acked_offset ≡ old.acked_offset)
        ⊎ ((tail : Str) × (lookup path streams ≡ some tail) × AtMost new.acked_offset tail))

abbrev pub LinkChange : Dict Str → Str → Option Link → Option Link → Type 0
LinkChange streams path none none = Unit
LinkChange streams path none (some new) = ⊥
LinkChange streams path (some old) none = ⊥
LinkChange streams path (some old) (some new) = Moved streams path old new

str_gt_refl : (a : Str) → AtMost a a
str_gt_refl a = let e = str_cmp_refl a in ground arith

second_false : (a b : Bool) → (a || b) ≡ false → b ≡ false
second_false true b h = cc
second_false false b h = h

AtMost-trans : (a b c : Str) → AtMost a b → AtMost b c → AtMost a c
unfolding str_cmp
AtMost-trans [] b [] f g = refl
AtMost-trans [] b (z ∷ c) f g = refl
AtMost-trans (x ∷ a) [] c f g = cc
AtMost-trans (x ∷ a) (y ∷ b) [] f g = cc
AtMost-trans (x ∷ a) (y ∷ b) (z ∷ c) f g = ground (arith, AtMost-trans a b c)

module _ (streams : Dict Str) (path : Str) where
  Moved-refl : (l : Link) → Moved streams path l l
  Moved-refl l = (refl, str_gt_refl l.acked_offset, inl refl)

  LinkChange-refl : (o : Option Link) → LinkChange streams path o o
  LinkChange-refl none = tt
  LinkChange-refl (some l) = Moved-refl l

  Moved-trans :
      (a b c : Link) → Moved streams path a b → Moved streams path b c → Moved streams path a c
  Moved-trans a b c f g = (
    g.0 ∙ f.0,
    AtMost-trans a.acked_offset b.acked_offset c.acked_offset f.1 g.1,
    elim g.2 [
      | inl same ↦ elim f.2 [
        | inl same' ↦ inl (same ∙ same')
        | inr (tail, found, below) ↦ inr (tail, found, subst (λ o. AtMost o tail) (sym same) below)
      ]
      | inr bounded ↦ inr bounded
    ],
  )

  LinkChange-trans :
      (a b c : Option Link)
      → LinkChange streams path a b
      → LinkChange streams path b c
      → LinkChange streams path a c
  LinkChange-trans none none c f g = g
  LinkChange-trans none (some b) c f g = absurd f
  LinkChange-trans (some a) none c f g = absurd f
  LinkChange-trans (some a) (some b) none f g = g
  LinkChange-trans (some a) (some b) (some c) f g = Moved-trans a b c f g

  -- Raising by an offset that is at most the tail.
  raised :
      (l : Link) (offset tail : Str)
      → lookup path streams ≡ some tail
      → AtMost offset tail
      → Moved streams path l (record l { acked_offset = str_max l.acked_offset offset })
  raised l offset tail found down = elim (Bool-cases (str_gt l.acked_offset offset)) [
    | inl above ↦ rw above (Moved-refl l)
    | inr below ↦ rw below (refl, below, inr (tail, found, down))
  ]

  LinkChange-put :
      (b : Bool) (other old : Option Link) (new : Link)
      → (b ≡ true → other ≡ old)
      → (b ≡ true → LinkChange streams path old (some new))
      → LinkChange streams path other (if b then some new else other)
  LinkChange-put true other old new same f =
      subst (λ o. LinkChange streams path o (some new)) (sym (same refl)) (f refl)
  LinkChange-put false other old new same f = LinkChange-refl other

-- An acknowledgement of a stream whose tail is known and not exceeded.
abbrev IsBelowTail : Dict Str → Ack → Type 0
IsBelowTail streams ack =
    (tail : Str) × (lookup ack.stream streams ≡ some tail) × AtMost ack.offset tail

unfoldable pub LinksChange : Dict Str → Dict Link → Dict Link → Type 0
LinksChange streams old new =
    (path : Str) → LinkChange streams path (lookup path old) (lookup path new)

module _ (streams : Dict Str) where
  raise-LinksChange :
      (ack : Ack) (links : Dict Link) (found : Option Link)
      → lookup ack.stream links ≡ found
      → IsBelowTail streams ack
      → LinksChange streams links (raise ack.stream ack.offset links found)
  unfolding raise LinksChange
  raise-LinksChange ack links none e below =
      λ path. LinkChange-refl streams path (lookup path links)
  raise-LinksChange ack links (some l) e (tail, known, below) = λ path.
      let new : Link = record l { acked_offset = str_max l.acked_offset ack.offset } in
      subst (λ o. LinkChange streams path (lookup path links) o)
        (sym (lookup-put ack.stream path new links))
        (LinkChange-put streams path (str_eq ack.stream path) (lookup path links) (some l) new
          (λ h. ap (λ k. lookup k links) (sym ((str_eq_iff ack.stream path).0 h)) ∙ e)
          (λ h.
            raised streams path l ack.offset tail
              (ap (λ k. lookup k streams) (sym ((str_eq_iff ack.stream path).0 h)) ∙ known) below))

  apply_acks-LinksChange :
      (acks : List Ack) (links : Dict Link)
      → All (IsBelowTail streams) acks
      → LinksChange streams links (apply_acks acks links)
  unfolding apply_acks LinksChange
  apply_acks-LinksChange [] links h = λ path. LinkChange-refl streams path (lookup path links)
  apply_acks-LinksChange (ack ∷ acks) links h = λ path.
      let between = raise ack.stream ack.offset links (lookup ack.stream links) in
      LinkChange-trans streams path (lookup path links) (lookup path between)
        (lookup path (apply_acks acks between))
        (raise-LinksChange ack links (lookup ack.stream links) refl (h.0) path)
        (apply_acks-LinksChange acks between (h.1) path)

  within_tail :
      (ack : Ack) (tail : Option Str)
      → lookup ack.stream streams ≡ tail
      → beyond ack.offset tail ≡ false
      → IsBelowTail streams ack
  unfolding beyond
  within_tail ack none e h = cc
  within_tail ack (some tail) e h = (tail, e, h)

  check_ack-IsBelowTail :
      (links : Dict Link) (ack : Ack)
      → Every (λ (u : Unit {0}). IsBelowTail streams ack) (check_ack links streams ack)
  unfolding check_ack
  check_ack-IsBelowTail links ack =
      let P = λ (u : Unit {0}). IsBelowTail streams ack in
      Every->>= P (ok_or _ (lookup ack.stream links)) _ (λ link linked.
        Every->>= P (parsed (from_str ack.offset)) _ (λ offset good.
          let earlier = is_start offset || is_now offset || str_gt link.acked_offset ack.offset in
          Every-if P (earlier || beyond ack.offset (lookup ack.stream streams)) _ _ (λ e. tt)
            (λ e. within_tail ack (lookup ack.stream streams) refl (second_false earlier _ e))))

  check_acks-IsBelowTail :
      (links : Dict Link) (acks : List Ack)
      → Every (λ (u : Unit {0}). All (IsBelowTail streams) acks) (check_acks links streams acks)
  unfolding check_acks
  check_acks-IsBelowTail links [] = tt
  check_acks-IsBelowTail links (ack ∷ acks) =
      let P = λ (u : Unit {0}). All (IsBelowTail streams) (ack ∷ acks) in
      Every->> P (check_ack links streams ack) _ (λ good.
        Every-weaken (λ (u : Unit {0}). All (IsBelowTail streams) acks) P
          (check_acks links streams acks)
          (λ u rest. (
            Every-ok (λ (u : Unit {0}). IsBelowTail streams ack) good
                (check_ack-IsBelowTail links ack),
            rest,
          ))
          (check_acks-IsBelowTail links acks))

-- The links after a completion that passed its checks.
module _ (sub : Subscription) (action : Str) (completion : Completion) (streams : Dict Str)
    (now : ℕ) where
  links_choice :
      (b c : Bool)
      → All (IsBelowTail streams) completion.acks
      → LinksChange streams sub.links (
          let links = if b then sub.links else apply_acks completion.acks sub.links in
          let sub' : Subscription =
            if c
            then record sub { links = links; wake = none; failed = false; next_attempt_at = now }
            else record sub {
              links = links;
              wake = extend (now + sub.config.lease_ttl_ms) sub.wake;
            } in
          sub'.links)
  unfolding LinksChange
  links_choice true true h = λ path. LinkChange-refl streams path (lookup path sub.links)
  links_choice true false h = λ path. LinkChange-refl streams path (lookup path sub.links)
  links_choice false true h = apply_acks-LinksChange streams completion.acks sub.links h
  links_choice false false h = apply_acks-LinksChange streams completion.acks sub.links h

-- After an accepted completion the subscription has the same links; a cursor that moved is at most
-- its stream's tail, and none has moved back.
pub complete-LinksChange :
    (p : Primitives) (parse : Str → Option Completion) (sub : Subscription) (id key : Str)
    (authorization : Option Str) (body action : Str) (streams : Dict Str) (now : ℕ)
    → Every
        (λ (r : Response × Subscription). LinksChange streams sub.links r.1.links)
        (complete p parse sub id key authorization body action streams now)
unfolding complete apply_completion
complete-LinksChange p parse sub id key authorization body action streams now =
    let P = λ (r : Response × Subscription). LinksChange streams sub.links r.1.links in
    Every->>= P (ok_or invalid_json (parse body)) _ (λ completion parsed.
      Every->>= P (ok_or fenced (bearer authorization)) _ (λ tok given.
        Every->>= P (verify p key tok) _ (λ claims signed.
          Every->>= P (ok_or fenced sub.wake) _ (λ wake found.
            Every->> P
              (if is_fenced sub wake id action tok claims completion now then err fenced else ok tt)
              _
              (λ current. Every->> P (check_acks sub.links streams completion.acks) _ (λ checked.
                links_choice sub action completion streams now (str_eq action (text "release"))
                  (completion.done || str_eq action (text "release"))
                  (Every-ok (λ (u : Unit {0}). All (IsBelowTail streams) completion.acks) checked
                    (check_acks-IsBelowTail streams sub.links completion.acks))))))))
