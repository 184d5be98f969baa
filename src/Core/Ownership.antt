-- ===== src/Core/Ownership.antt =====
-- ownership.go: rendezvous hashing over the membership.
pub mod Laws
mod Examples
use distributed_rate_limiter.Base.{
  ℕ, ◌*◌, ◌%◌, ◌^◌, Bool, true, false, ◌||◌, Option, none, some, List, [], ◌∷◌, ◌++◌, ltb,
  if◌then◌else◌,
}
use distributed_rate_limiter.Base.Fnv.{fnv64a}
use distributed_rate_limiter.Base.Int.{ℤ, pos, pos_part, ltb_ℤ}
use distributed_rate_limiter.Base.Str.{Str, str_eq, is_empty}
use distributed_rate_limiter.Core.Membership.{InstanceInfo, Membership}

pub record RendezvousOwnership : Type 0 where
  pub region : Str
  pub enable_global : Bool
  pub global_fallback : Bool

unfoldable pub in_region : Str → List InstanceInfo → List InstanceInfo
in_region region [] = []
in_region region (i ∷ is) =
    let rest = in_region region is in if str_eq i.region region then i ∷ rest else rest

-- The hash of the instance's id, a zero byte and the key, times the weight, in 64 bits.
unfoldable pub score : Str → InstanceInfo → ℕ
unfolding fnv64a
score key i =
    let weight = if ltb_ℤ i.weight (pos 1) then 1 else pos_part i.weight in
    (fnv64a (i.id ++ 0 ∷ key) * weight) % 2 ^ 64

-- The loop, from the second instance on: a later instance wins only with a larger score.
unfoldable pub best_from : Str → Str → ℕ → List InstanceInfo → Str
best_from key best_id best_score [] = best_id
best_from key best_id best_score (i ∷ is) =
    let s = score key i in
    best_from key (if ltb best_score s then i.id else best_id)
      (if ltb best_score s then s else best_score) is

unfoldable pub best_id : Str → List InstanceInfo → Str
best_id key [] = []
best_id key (i ∷ is) = best_from key i.id (score key i) is

-- The instances among which the owner is sought; with none, every instance owns every key.
unfoldable pub candidates : RendezvousOwnership → List InstanceInfo → List InstanceInfo
candidates ro instances =
    if ro.enable_global || is_empty ro.region
    then instances
    else elim (in_region ro.region instances) [
      | [] ↦ if ro.global_fallback then instances else []
      | i ∷ is ↦ i ∷ is
    ]

abbrev owns_best : Str → Str → Bool
owns_best self best = if is_empty best then true else str_eq best self

unfoldable pub owns_among : Str → Str → List InstanceInfo → Bool
owns_among self key [] = true
owns_among self key (i ∷ is) = owns_best self (best_id key (i ∷ is))

abbrev owner_of : RendezvousOwnership → Str → Str → List InstanceInfo → Bool
owner_of ro self key [] = true
owner_of ro self key (i ∷ is) =
    if is_empty self then true else owns_among self key (candidates ro (i ∷ is))

-- IsOwner
unfoldable pub is_owner : RendezvousOwnership → Option Membership → Str → Bool
is_owner ro none key = true
is_owner ro (some m) key = elim m.instances [
  | none ↦ true
  | some instances ↦ owner_of ro m.self_id key instances
]
