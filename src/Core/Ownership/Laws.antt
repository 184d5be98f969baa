-- ===== src/Core/Ownership/Laws.antt =====
-- Each key has exactly one owner among the candidates.
use distributed_rate_limiter.Base.{
  ◌≤◌, ◌≡◌, refl, true, false, arith, Option, some, List, [], ◌∷◌, ◌⊎◌, inl, inr, Bool-cases, All,
  ltb, ◌↔◌,
}
use distributed_rate_limiter.Base.Str.{Str, str_eq_iff, is_empty}
use distributed_rate_limiter.Core.Membership.{InstanceInfo, Membership}
use distributed_rate_limiter.Core.Ownership.{
  RendezvousOwnership, score, best_from, best_id, candidates, owns_among, is_owner,
}

-- The instance is one of the list.
abbrev pub Among : InstanceInfo → List InstanceInfo → Type 0
Among i [] = ⊥
Among i (j ∷ js) = (i ≡ j) ⊎ Among i js

best_from-top :
    (key : Str) (b : InstanceInfo) (is : List InstanceInfo)
    → (i : InstanceInfo) × (best_from key b.id (score key b) is ≡ i.id)
      × ((i ≡ b) ⊎ Among i is)
      × (score key b ≤ score key i)
      × All (λ j. score key j ≤ score key i) is
unfolding best_from
best_from-top key b [] = (b, refl, inl refl, omega arith, tt)
best_from-top key b (j ∷ is) = elim (Bool-cases (ltb (score key b) (score key j))) [
  | inl e ↦
      let (i, won, at, above, all) = best_from-top key j is in
      (
        i,
        rw e won,
        elim at [ inl same ↦ inr (inl same) | inr later ↦ inr (inr later) ],
        ground arith,
        (above, all),
      )
  | inr e ↦
      let (i, won, at, above, all) = best_from-top key b is in
      (
        i,
        rw e won,
        elim at [ inl same ↦ inl same | inr later ↦ inr (inr later) ],
        above,
        (ground arith, all),
      )
]

-- The winner is one of the instances, and no instance has a larger score.
pub best_id-top :
    (key : Str) (b : InstanceInfo) (is : List InstanceInfo)
    → (i : InstanceInfo) × (best_id key (b ∷ is) ≡ i.id)
      × Among i (b ∷ is)
      × All (λ j. score key j ≤ score key i) (b ∷ is)
unfolding best_id
best_id-top key b is =
    let (i, won, at, above, all) = best_from-top key b is in (i, won, at, (above, all))

-- What an instance with the given id sees of the cluster.
abbrev pub seen_by : Str → Str → List InstanceInfo → Option Membership
seen_by id region is =
    some (record { self_id = id; self_region = region; instances = some is; healthy = true })

abbrev pub Named : List InstanceInfo → Type 0
Named = All (λ i. is_empty i.id ≡ false)

Named-Among :
    (i : InstanceInfo) (is : List InstanceInfo) → Among i is → Named is → is_empty i.id ≡ false
Named-Among i [] at n = absurd at
Named-Among i (j ∷ js) (inl e) n = rw e n.0
Named-Among i (j ∷ js) (inr at) n = Named-Among i js at n.1

-- All instances with the same view of the cluster and the same settings agree on a single owner
-- of a key, as long as there is a candidate and the candidates have names: the winner's id is that
-- of a candidate whose score no other passes, and an instance with a name takes itself for the owner
-- exactly if it has that id. Where a region is set, no instance is in it, and neither global
-- ownership nor its fallback is on, there is no candidate, and nothing is said.
pub one_owner :
    (ro : RendezvousOwnership) (key self region : Str) (a b : InstanceInfo)
    (is bs : List InstanceInfo)
    → candidates ro (a ∷ is) ≡ b ∷ bs
    → Named (b ∷ bs)
    → is_empty self ≡ false
    → ((i : InstanceInfo) × (best_id key (b ∷ bs) ≡ i.id)
        × Among i (b ∷ bs)
        × All (λ j. score key j ≤ score key i) (b ∷ bs))
      × ((is_owner ro (seen_by self region (a ∷ is)) key ≡ true) ↔ (self ≡ best_id key (b ∷ bs)))
unfolding is_owner owns_among
one_owner ro key self region a b is bs c n h =
    let (i, won, at, top) = best_id-top key b bs in
    let named = Named-Among i (b ∷ bs) at n in
    ((i, won, at, top), rw (h, c, won, named) (ground (arith, str_eq_iff i.id self)))
