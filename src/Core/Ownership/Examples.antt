-- ===== src/Core/Ownership/Examples.antt =====
-- The owner of a concrete key.
use distributed_rate_limiter.Base.{◌≤◌, ◌≡◌, refl, true, false, List, [], ◌∷◌, ◌↔◌, All}
use distributed_rate_limiter.Base.Int.{pos}
use distributed_rate_limiter.Base.Str.{Str, bytes}
use distributed_rate_limiter.Core.Membership.{InstanceInfo}
use distributed_rate_limiter.Core.Ownership.{
  RendezvousOwnership, score, best_id, candidates, is_owner,
}
use distributed_rate_limiter.Core.Ownership.Laws.{Among, seen_by, one_owner}

abbrev instance_of : Str → InstanceInfo
instance_of id = record { id = id; region = bytes "eu"; weight = pos 1 }

abbrev cluster : List InstanceInfo
cluster = instance_of (bytes "a") ∷ instance_of (bytes "b") ∷ []

abbrev global : RendezvousOwnership
global = record { region = bytes "eu"; enable_global = true; global_fallback = false }

abbrev key : Str
key = bytes "k"

one_owner_example :
    ((i : InstanceInfo) × (best_id key cluster ≡ i.id)
      × Among i cluster
      × All (λ j. score key j ≤ score key i) cluster)
    × ((is_owner global (seen_by (bytes "b") (bytes "eu") cluster) key ≡ true)
        ↔ (bytes "b" ≡ best_id key cluster))
unfolding candidates
one_owner_example =
    one_owner global key (bytes "b") (bytes "eu") (instance_of (bytes "a"))
      (instance_of (bytes "a")) (instance_of (bytes "b") ∷ []) (instance_of (bytes "b") ∷ []) refl
      (refl, (refl, tt)) refl
