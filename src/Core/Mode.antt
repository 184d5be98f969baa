-- ===== src/Core/Mode.antt =====
-- mode.go: the degrade controller. The redis client, the membership and the logger are seen by
-- their answers and by the message that is sent; a client that is not configured is `none`.
pub mod Health
pub mod Laws
mod Examples
use distributed_rate_limiter.Base.{
  ℕ, suc, Bool, true, false, not, ◌&&◌, Option, none, some, List, [], ◌∷◌, if◌then◌else◌, ◌==◌,
}
use distributed_rate_limiter.Base.Float.{Float64}
use distributed_rate_limiter.Base.Int.{ℤ, pos, leb_ℤ, ltb_ℤ, eqb_ℤ}
use distributed_rate_limiter.Base.Str.{Str, str_eq}
use distributed_rate_limiter.Core.Clock.{milliseconds, sub_time}
use distributed_rate_limiter.Core.Membership.{InstanceInfo, Membership}

pub data OperatingMode : Type 0 where
  mode_normal mode_degraded mode_emergency : OperatingMode

pub record DegradeThresholds : Type 0 where
  pub redis_unhealthy_for : ℤ
  pub membership_unhealthy : ℤ
  pub error_rate_window : ℤ

pub record DegradeController (F : Type 0) : Type 0 where
  pub mode : OperatingMode
  pub thresholds : DegradeThresholds
  pub region : Str
  pub require_quorum : Bool
  pub quorum_fraction : F
  pub last_redis_healthy : ℕ
  pub last_mship_healthy : ℕ
  pub last_mode : OperatingMode

abbrev pub or_default : ℤ → ℤ → ℤ
or_default x d = if eqb_ℤ x (pos 0) then d else x

-- The loop that counts the instances of a region.
unfoldable pub count_region : Str → List InstanceInfo → ℕ
count_region region [] = 0
count_region region (i ∷ is) =
    let rest = count_region region is in if str_eq i.region region then suc rest else rest

abbrev pub count_all : List InstanceInfo → ℕ
count_all [] = 0
count_all (i ∷ is) = suc (count_all is)

-- What RegionStatus returns: the instances in the region, all instances, and whether that is
-- a quorum.
pub record RegionStatus : Type 0 where
  pub in_region : ℕ
  pub total : ℕ
  pub ok : Bool

abbrev pub unknown : Bool → RegionStatus
unknown ok = record { in_region = 0; total = 0; ok = ok }

unfoldable pub health_of : Option Membership → Bool
health_of none = true
health_of (some m) = m.healthy

unfoldable pub mode_for : DegradeThresholds → ℤ → ℤ → OperatingMode
mode_for th redis_age mship_age =
    if leb_ℤ th.redis_unhealthy_for redis_age
    then (if leb_ℤ th.membership_unhealthy mship_age then mode_emergency else mode_degraded)
    else mode_normal

abbrev pub same_mode : OperatingMode → OperatingMode → Bool
same_mode mode_normal mode_normal = true
same_mode mode_degraded mode_degraded = true
same_mode mode_emergency mode_emergency = true
same_mode _ _ = false

-- A redis that is not configured counts as healthy.
unfoldable pub redis_ok : Option Bool → Bool
redis_ok none = true
redis_ok (some healthy) = healthy

module _ (fl : Float64) where
  open fl use {F, of_int, mul, div, le, ceil_int}

  -- The default of the fraction is 0.5. A float is zero if it is neither below nor above zero.
  unfoldable pub new_degrade_controller :
      DegradeThresholds → Str → Bool → F → ℕ → DegradeController F
  new_degrade_controller th region require_quorum quorum_fraction now = record {
    mode = mode_normal;
    thresholds = record th {
      redis_unhealthy_for = or_default th.redis_unhealthy_for (milliseconds 500);
      membership_unhealthy = or_default th.membership_unhealthy (milliseconds 2000);
    };
    region = region;
    require_quorum = require_quorum;
    quorum_fraction =
        if le quorum_fraction (of_int (pos 0)) && le (of_int (pos 0)) quorum_fraction
        then div (of_int (pos 1)) (of_int (pos 2))
        else quorum_fraction;
    last_redis_healthy = now;
    last_mship_healthy = now;
    last_mode = mode_normal;
  }

  unfoldable pub required : ℕ → F → ℤ
  required total fraction =
      let n = ceil_int (mul (of_int (pos total)) fraction) in if ltb_ℤ n (pos 1) then pos 1 else n

  unfoldable pub status_of : DegradeController F → List InstanceInfo → RegionStatus
  status_of dc is =
      let in_region = count_region dc.region is in
      let total = count_all is in
      record {
        in_region = in_region;
        total = total;
        ok =
            if dc.require_quorum
            then (if total == 0
                then false
                else leb_ℤ (required total dc.quorum_fraction) (pos in_region))
            else true;
      }

  -- RegionStatus. Where the quorum is not required, a failing call counts as one.
  unfoldable pub region_status : DegradeController F → Option Membership → RegionStatus
  region_status dc none = unknown (not dc.require_quorum)
  region_status dc (some m) = elim m.instances [
    | none ↦ unknown (not dc.require_quorum)
    | some is ↦ status_of dc is
  ]

  -- A quorum that is required and not met counts as an unhealthy membership.
  unfoldable pub mship_ok : DegradeController F → Option Membership → Bool
  mship_ok dc mship =
      if dc.require_quorum then health_of mship && (region_status dc mship).ok else health_of mship

  -- Update, with the old and the new mode of the message "mode changed" if it is sent.
  unfoldable pub update :
      DegradeController F
      → ℕ
      → Option Bool
      → Option Membership
      → DegradeController F × Option (OperatingMode × OperatingMode)
  update dc now redis mship =
      let redis_at = if redis_ok redis then now else dc.last_redis_healthy in
      let mship_at = if mship_ok dc mship then now else dc.last_mship_healthy in
      let mode = mode_for dc.thresholds (sub_time now redis_at) (sub_time now mship_at) in
      (
        record dc {
          last_redis_healthy = redis_at;
          last_mship_healthy = mship_at;
          mode = mode;
          last_mode = mode;
        },
        if same_mode dc.last_mode mode then none else some (dc.last_mode, mode),
      )
