-- ===== src/Core/Fallback.antt =====
-- fallback.go: the local counters that decide while the redis is out of reach.
pub mod Laws
pub mod History
mod Examples
use distributed_rate_limiter.Base.{
  ℕ, zero, suc, ◌≤◌, Bool, true, false, not, ◌&&◌, ◌||◌, Option, none, some, List, [], ◌∷◌, ltb,
  if◌then◌else◌,
}
use distributed_rate_limiter.Base.Int.{ℤ, pos, leb_ℤ, ltb_ℤ, eqb_ℤ, quot64}
use distributed_rate_limiter.Base.Str.{Str, str_eq, is_empty}
use distributed_rate_limiter.Base.Assoc.{Assoc, lookup, insert}
use distributed_rate_limiter.Core.Clock.{second, truncate}
use distributed_rate_limiter.Core.Models.{RuleParams, Decision}
use distributed_rate_limiter.Core.Membership.{InstanceInfo, Membership}
use distributed_rate_limiter.Core.Mode.{
  OperatingMode, mode_normal, mode_degraded, mode_emergency, count_region,
}
use distributed_rate_limiter.Core.Window.{
  WindowCounter, roll, fits, charge, remaining_of, reset_of, retry_of,
}

pub record FallbackPolicy : Type 0 where
  pub local_cap_per_window : ℤ
  pub deny_when_not_owner : Bool
  pub emergency_allow_small_cap : Bool
  pub emergency_cap_per_window : ℤ

-- The four results of AllowFixedWindow.
pub record LocalAnswer : Type 0 where
  pub allowed : Bool
  pub remaining : ℤ
  pub reset_after : ℤ
  pub retry_after : ℤ

abbrev pub LocalStore : Type 0
LocalStore = Assoc WindowCounter

-- A window that is not positive is one second.
abbrev pub or_second : ℤ → ℤ
or_second window = if leb_ℤ window (pos 0) then second else window

abbrev pub local_counter : LocalStore → ℕ → Str → ℤ → WindowCounter
local_counter store now key window = roll (truncate now window) (lookup key store)

-- AllowFixedWindow
unfoldable pub allow_fixed_window : LocalStore → Str → ℤ → ℤ → ℤ → ℕ → LocalStore × LocalAnswer
allow_fixed_window store key cap window cost now =
    if leb_ℤ cost (pos 0) || leb_ℤ cap (pos 0)
    then (
      store,
      record { allowed = false; remaining = pos 0; reset_after = pos 0; retry_after = pos 0 },
    )
    else (let length = or_second window in
        let counter = local_counter store now key length in
        let allowed = fits cap cost counter in
        let after = charge cap cost counter in
        let reset = reset_of (truncate now length) length now in
        (
          insert key after store,
          record {
            allowed = allowed;
            remaining = remaining_of cap after;
            reset_after = reset;
            retry_after = retry_of allowed reset;
          },
        ))

-- The interfaces are seen by their answers; one that is not configured is `none`.
pub record FallbackLimiter : Type 0 where
  pub ownership : Option (Str → Bool)
  pub mship : Option Membership
  pub region : Str
  pub region_group : Str
  pub policy : FallbackPolicy

unfoldable pub has_id : Str → List InstanceInfo → Bool
has_id id [] = false
has_id id (i ∷ is) = str_eq i.id id || has_id id is

abbrev group_of : FallbackLimiter → Str
group_of fl = if is_empty fl.region_group then fl.region else fl.region_group

-- The instances of the group, and the instance itself if it belongs there and is not listed.
unfoldable pub group_size : Str → Membership → List InstanceInfo → ℕ
unfolding has_id
group_size group m is =
    let listed = count_region group is in
    if not (has_id m.self_id is) && str_eq m.self_region group then suc listed else listed

unfoldable pub at_least_one : ℕ → ℕ
at_least_one zero = 1
at_least_one (suc n) = suc n

abbrev factor_in : Str → Membership → ℕ
factor_in group m = elim m.instances [
  | none ↦ 1
  | some is ↦ if is_empty group then 1 else at_least_one (group_size group m is)
]

-- effectiveShardFactor
unfoldable pub effective_shard_factor : FallbackLimiter → ℕ
unfolding group_size
effective_shard_factor fl = elim fl.mship [ none ↦ 1 | some m ↦ factor_in (group_of fl) m ]

abbrev default_policy : FallbackPolicy
default_policy = record {
  local_cap_per_window = pos 100;
  deny_when_not_owner = true;
  emergency_allow_small_cap = true;
  emergency_cap_per_window = pos 10;
}

-- The zero policy is a case of its own in the source.
unfoldable pub normalize_fallback_policy : FallbackPolicy → FallbackPolicy
normalize_fallback_policy p =
    if (eqb_ℤ p.local_cap_per_window (pos 0) && not p.deny_when_not_owner)
      && (not p.emergency_allow_small_cap && eqb_ℤ p.emergency_cap_per_window (pos 0))
    then default_policy
    else record {
      local_cap_per_window =
          if eqb_ℤ p.local_cap_per_window (pos 0) then pos 100 else p.local_cap_per_window;
      deny_when_not_owner = if not p.deny_when_not_owner then true else p.deny_when_not_owner;
      emergency_allow_small_cap =
          if not p.emergency_allow_small_cap then true else p.emergency_allow_small_cap;
      emergency_cap_per_window =
          if eqb_ℤ p.emergency_cap_per_window (pos 0) then pos 10 else p.emergency_cap_per_window;
    }

-- A cap's share of one instance, and at least one.
unfoldable pub share : ℤ → ℕ → ℤ
unfolding quot64
share cap factor = let part = quot64 cap factor in if ltb_ℤ part (pos 1) then pos 1 else part

-- The cap for the mode; `none` where an emergency denies everything.
unfoldable pub cap_for : FallbackPolicy → OperatingMode → ℕ → Option ℤ
unfolding share
cap_for policy mode_emergency factor =
    if policy.emergency_allow_small_cap
    then some (share policy.emergency_cap_per_window factor)
    else none
cap_for policy mode_normal factor = some (share policy.local_cap_per_window factor)
cap_for policy mode_degraded factor = some (share policy.local_cap_per_window factor)

abbrev denied : ℤ → Decision
denied limit = record {
  allowed = false;
  remaining = pos 0;
  limit = limit;
  reset_after = pos 0;
  retry_after = pos 0;
}

abbrev owns : Option (Str → Bool) → Str → Bool
owns none key = true
owns (some f) key = f key

unfoldable pub allow_within :
    FallbackLimiter
    → FallbackPolicy
    → LocalStore
    → ℕ
    → Str
    → RuleParams
    → ℤ
    → ℤ
    → LocalStore × Decision
unfolding allow_fixed_window
allow_within fl policy store now key params cost cap =
    if policy.deny_when_not_owner && not (owns fl.ownership key)
    then (store, denied cap)
    else (let (after, a) = allow_fixed_window store key cap (or_second params.window) cost now in
        (
          after,
          record {
            allowed = a.allowed;
            remaining = a.remaining;
            limit = cap;
            reset_after = a.reset_after;
            retry_after = a.retry_after;
          },
        ))

-- Allow of the FallbackLimiter, in the mode that its controller is in.
unfoldable pub allow :
    FallbackLimiter → OperatingMode → LocalStore → ℕ → Str → RuleParams → ℤ → LocalStore × Decision
allow fl mode store now key params cost =
    let policy = normalize_fallback_policy fl.policy in
    elim (cap_for policy mode (at_least_one (effective_shard_factor fl))) [
      | none ↦ (store, denied (pos 0))
      | some cap ↦ allow_within fl policy store now key params cost cap
    ]
