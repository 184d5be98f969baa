-- ===== src/Core/Membership.antt =====
-- membership_static.go, with InstanceInfo and the interface Membership of mode.go. A client sees a
-- membership as its answers at one moment; a failing Instances call is `none`.
pub mod Laws
use distributed_rate_limiter.Base.{
  Bool, true, Option, none, some, List, [], ◌∷◌, ◌++◌, map, if◌then◌else◌,
}
use distributed_rate_limiter.Base.Int.{ℤ, pos, leb_ℤ}
use distributed_rate_limiter.Base.Str.{Str, str_eq}

pub record InstanceInfo : Type 0 where
  pub id : Str
  pub region : Str
  pub weight : ℤ

pub record Membership : Type 0 where
  pub self_id : Str
  pub self_region : Str
  pub instances : Option (List InstanceInfo)
  pub healthy : Bool

pub record StaticMembership : Type 0 where
  pub self : Str
  pub self_region : Str
  pub instances : List InstanceInfo
  pub healthy : Bool

-- A weight that is not positive counts as one.
unfoldable pub mend_weight : ℤ → ℤ
mend_weight w = if leb_ℤ w (pos 0) then pos 1 else w

unfoldable pub or_self : Str → Str → List InstanceInfo → List InstanceInfo
or_self self_id self_region [] = record { id = self_id; region = self_region; weight = pos 1 } ∷ []
or_self self_id self_region (i ∷ is) = i ∷ is

unfoldable pub mend_all : List InstanceInfo → List InstanceInfo
unfolding mend_weight
mend_all [] = []
mend_all (i ∷ is) = record i { weight = mend_weight i.weight } ∷ mend_all is

unfoldable pub new_static_membership : Str → Str → List InstanceInfo → StaticMembership
new_static_membership self_id self_region instances = record {
  self = self_id;
  self_region = self_region;
  instances = mend_all (or_self self_id self_region instances);
  healthy = true;
}

unfoldable pub new_single_instance_membership : Str → Str → StaticMembership
new_single_instance_membership self_id region =
    new_static_membership self_id region
      (record { id = self_id; region = region; weight = pos 1 } ∷ [])

-- SelfID, SelfRegion, Instances and Healthy: the slice of instances is copied, and no call fails.
unfoldable pub as_membership : StaticMembership → Membership
as_membership m = record {
  self_id = m.self;
  self_region = m.self_region;
  instances = some m.instances;
  healthy = m.healthy;
}

unfoldable pub set_healthy : StaticMembership → Bool → StaticMembership
set_healthy m v = record m { healthy = v }

-- The weight of the first instance with the id; a new instance at the end if there is none.
unfoldable pub put_weight : Str → Str → ℤ → List InstanceInfo → List InstanceInfo
put_weight id region weight [] = record { id = id; region = region; weight = weight } ∷ []
put_weight id region weight (i ∷ is) =
    if str_eq i.id id then record i { weight = weight } ∷ is else i ∷ put_weight id region weight is

unfoldable pub set_self_weight : StaticMembership → ℤ → StaticMembership
set_self_weight m weight = record m {
  instances = put_weight m.self m.self_region (mend_weight weight) m.instances;
}
