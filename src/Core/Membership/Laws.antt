-- ===== src/Core/Membership/Laws.antt =====
-- A static membership always has instances of positive weight.
use distributed_rate_limiter.Base.{◌<◌, arith, List, [], ◌∷◌, All, length, inl, inr, Bool-cases}
use distributed_rate_limiter.Base.Int.{ℤ, pos, ◌<ℤ◌}
use distributed_rate_limiter.Base.Str.{Str, str_eq}
use distributed_rate_limiter.Core.Membership.{
  InstanceInfo, StaticMembership, mend_weight, or_self, mend_all, new_static_membership, put_weight,
  set_self_weight,
}

abbrev pub Weighted : List InstanceInfo → Type 0
Weighted = All (λ i. pos 0 <ℤ i.weight)

mend_weight_pos : (w : ℤ) → pos 0 <ℤ mend_weight w
unfolding mend_weight
mend_weight_pos w = ground arith

mend_all-Weighted : (is : List InstanceInfo) → Weighted (mend_all is)
unfolding mend_all
mend_all-Weighted [] = tt
mend_all-Weighted (i ∷ is) = (mend_weight_pos i.weight, mend_all-Weighted is)

or_self_nonempty :
    (id region : Str) (is : List InstanceInfo) → 0 < length (mend_all (or_self id region is))
unfolding or_self mend_all
or_self_nonempty id region [] = omega arith
or_self_nonempty id region (i ∷ is) = omega arith

put_weight-Weighted :
    (id region : Str) (w : ℤ) (is : List InstanceInfo)
    → pos 0 <ℤ w
    → Weighted is
    → Weighted (put_weight id region w is) × (0 < length (put_weight id region w is))
unfolding put_weight
put_weight-Weighted id region w [] p v = (omega arith, omega arith)
put_weight-Weighted id region w (i ∷ is) p v = elim (Bool-cases (str_eq i.id id)) [
  | inl e ↦ rw (e, put_weight) ((p, v.1), omega arith)
  | inr e ↦ rw (e, put_weight) ((v.0, (put_weight-Weighted id region w is p v.1).0), omega arith)
]

pub record Inv (m : StaticMembership) : Type 0 where
  pub some_instance : 0 < length m.instances
  pub weighted : Weighted m.instances

pub new_static_membership-Inv :
    (id region : Str) (is : List InstanceInfo) → Inv (new_static_membership id region is)
unfolding new_static_membership
new_static_membership-Inv id region is = record {
  some_instance = or_self_nonempty id region is;
  weighted = mend_all-Weighted (or_self id region is);
}

pub set_self_weight-Inv : (m : StaticMembership) (w : ℤ) → Inv m → Inv (set_self_weight m w)
unfolding set_self_weight
set_self_weight-Inv m w v =
    let p =
      put_weight-Weighted m.self m.self_region (mend_weight w) m.instances (mend_weight_pos w)
        v.weighted in
    record { some_instance = p.1; weighted = p.0 }
