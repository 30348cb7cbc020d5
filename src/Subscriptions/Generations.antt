-- ===== src/Subscriptions/Generations.antt =====
-- The generations of the wakes: what every change of a subscription keeps.
pub mod Requests
pub mod Transactions
pub mod Rounds
pub mod Outcomes
pub mod Runs
use durable_streams_rust.Prelude.{
  ℕ, ◌≤◌, ◌+◌, ◌≡◌, refl, sym, ap, ◌∙◌, subst, inl, inr, Bool, Bool-cases, true, false, not, ◌&&◌,
  Option, Option-cases, none, some, List, [], ◌∷◌, Str, str_eq, str_eq_iff, if◌then◌else◌, arith,
}
use durable_streams_rust.Prelude.Dict.{Dict, lookup}
use durable_streams_rust.Prelude.Ordered.{put, lookup-put}
use durable_streams_rust.Subscriptions.Model.{Wake, Subscription}

-- A subscription's wake is of the subscription's generation.
abbrev pub HasCurrent : Option Wake → ℕ → Type 0
HasCurrent none generation = Unit
HasCurrent (some wake) generation = wake.generation ≡ generation

abbrev pub HasCurrentWake : Subscription → Type 0
HasCurrentWake sub = HasCurrent sub.wake sub.generation

-- What may become of a subscription: its generation does not fall, its wake stays current, and a
-- deletion is final.
abbrev pub Follows : Subscription → Subscription → Type 0
Follows old new =
    (old.generation ≤ new.generation)
    × (HasCurrentWake old → HasCurrentWake new)
    × (old.deleted ≡ true → new.deleted ≡ true)

-- The same of an entry of the database: it never goes away, and a new one has no stale wake.
abbrev pub Change : Option Subscription → Option Subscription → Type 0
Change none none = Unit
Change none (some new) = HasCurrentWake new
Change (some old) none = ⊥
Change (some old) (some new) = Follows old new

abbrev pub Advances : Dict Subscription → Dict Subscription → Type 0
Advances subs subs' = (id : Str) → Change (lookup id subs) (lookup id subs')

pub Follows-refl : (sub : Subscription) → Follows sub sub
Follows-refl sub = (omega arith, λ h. h, λ h. h)

pub Follows-trans : (a b c : Subscription) → Follows a b → Follows b c → Follows a c
Follows-trans a b c f g = (omega (arith, f.0, g.0), λ h. g.1 (f.1 h), λ h. g.2 (f.2 h))

Change-refl : (o : Option Subscription) → Change o o
Change-refl none = tt
Change-refl (some sub) = Follows-refl sub

Change-trans : (a b c : Option Subscription) → Change a b → Change b c → Change a c
Change-trans none none c f g = g
Change-trans none (some b) none f g = tt
Change-trans none (some b) (some c) f g = g.1 f
Change-trans (some a) none c f g = absurd f
Change-trans (some a) (some b) none f g = g
Change-trans (some a) (some b) (some c) f g = Follows-trans a b c f g

pub Advances-refl : (subs : Dict Subscription) → Advances subs subs
Advances-refl subs id = Change-refl (lookup id subs)

pub Advances-trans : (a b c : Dict Subscription) → Advances a b → Advances b c → Advances a c
Advances-trans a b c f g id = Change-trans (lookup id a) (lookup id b) (lookup id c) (f id) (g id)

-- One entry that changes in a lawful way.
Change-put :
    (b : Bool) (old other : Option Subscription) (new : Subscription)
    → (b ≡ true → other ≡ old)
    → Change old (some new)
    → Change other (if b then some new else other)
Change-put true old other new same f = subst (λ o. Change o (some new)) (sym (same refl)) f
Change-put false old other new same f = Change-refl other

pub Advances-put :
    (id : Str) (new : Subscription) (subs : Dict Subscription)
    → Change (lookup id subs) (some new)
    → Advances subs (put id new subs)
Advances-put id new subs f key =
    subst (λ o. Change (lookup key subs) o) (sym (lookup-put id key new subs))
      (Change-put (str_eq id key) (lookup id subs) (lookup key subs) new
        (λ h. ap (λ k. lookup k subs) (sym ((str_eq_iff id key).0 h))) f)

-- A loop that changes the subscriptions one by one.
pub Change-entry :
    (b : Bool) (old new : Subscription) (x y : Option Subscription)
    → Follows old new
    → Change x y
    → Change (if b then some old else x) (if b then some new else y)
Change-entry true old new x y f g = f
Change-entry false old new x y f g = g
