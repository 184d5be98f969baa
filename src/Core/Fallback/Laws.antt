-- ===== src/Core/Fallback/Laws.antt =====
-- The caps of the fallback, and who is turned away.
use distributed_rate_limiter.Base.{
  ℕ, zero, suc, ◌≤◌, ◌<◌, ◌*◌, ◌≡◌, refl, true, false, arith, some, inl, inr, Bool-cases,
  if◌then◌else◌,
}
use Prim.Native.Nat.{max}
use distributed_rate_limiter.Base.Int.{ℤ, pos, pos_part, ◌≤ℤ◌, quot64, quot64-le, ltb_ℤ, eqb_ℤ}
use distributed_rate_limiter.Base.Str.{Str}
use distributed_rate_limiter.Core.Models.{RuleParams}
use distributed_rate_limiter.Core.Mode.{OperatingMode, mode_normal, mode_degraded, mode_emergency}
use distributed_rate_limiter.Core.Fallback.{
  FallbackPolicy, FallbackLimiter, LocalStore, normalize_fallback_policy, share, cap_for, owns,
  allow, allow_within, at_least_one, effective_shard_factor,
}

-- Normalizing a second time changes nothing, and both switches are on in the result, also where
-- the configuration turned them off.
pub normalize_lem :
    (p : FallbackPolicy)
    → (normalize_fallback_policy (normalize_fallback_policy p) ≡ normalize_fallback_policy p)
      × ((normalize_fallback_policy p).deny_when_not_owner ≡ true)
      × ((normalize_fallback_policy p).emergency_allow_small_cap ≡ true)
unfolding normalize_fallback_policy
normalize_lem p = ground arith

at_least_one_pos : (n : ℕ) → 0 < at_least_one n
unfolding at_least_one
at_least_one_pos zero = omega arith
at_least_one_pos (suc n) = omega arith

-- The shares of `n` instances, at least one, together stay within the cap, unless the cap is smaller than the
-- number of instances: then each has one. No share is
-- below one, and none passes a cap of at least one.
pub share_bounds :
    (cap : ℤ) (n : ℕ)
    → 0 < n
    → (pos 1 ≤ℤ share cap n)
      × (pos_part (share cap n) * n ≤ max (pos_part cap) n)
      × (pos_part (share cap n) ≤ max (pos_part cap) 1)
unfolding share
share_bounds cap n h = elim (Bool-cases (ltb_ℤ (quot64 cap n) (pos 1))) [
  | inl e ↦ rw (e, share) (omega arith, omega arith, omega arith)
  | inr e ↦
      let q = quot64-le cap n h in rw (e, share) (ground arith, omega (arith, q), grind (arith, q))
]

-- A cap as it is configured, where zero stands for a default.
abbrev pub cap_or : ℕ → ℤ → ℕ
cap_or default cap = if eqb_ℤ cap (pos 0) then default else pos_part cap

-- The largest number that a window can be granted under a policy: the larger of its caps, which are
-- 100 and 10 where they are not set, and at least one.
abbrev pub ceiling : FallbackPolicy → ℕ
ceiling p = max 1 (max (cap_or 100 p.local_cap_per_window) (cap_or 10 p.emergency_cap_per_window))

normalized_caps :
    (p : FallbackPolicy)
    → (pos_part (normalize_fallback_policy p).local_cap_per_window
        ≡ cap_or 100 p.local_cap_per_window)
      × (pos_part (normalize_fallback_policy p).emergency_cap_per_window
          ≡ cap_or 10 p.emergency_cap_per_window)
unfolding normalize_fallback_policy
normalized_caps p = ground arith

-- In every mode and for every group size there is a cap, at least one and at most the ceiling.
pub cap_for_bounds :
    (p : FallbackPolicy) (mode : OperatingMode) (n : ℕ)
    → 0 < n
    → (cap : ℤ) × (cap_for (normalize_fallback_policy p) mode n ≡ some cap)
      × (pos 1 ≤ℤ cap)
      × (cap ≤ℤ pos (ceiling p))
unfolding cap_for
cap_for_bounds p mode_normal n h =
    let b = share_bounds (normalize_fallback_policy p).local_cap_per_window n h in
    (
      share (normalize_fallback_policy p).local_cap_per_window n,
      refl,
      b.0,
      omega (arith, b.0, b.2, normalized_caps p),
    )
cap_for_bounds p mode_degraded n h =
    let b = share_bounds (normalize_fallback_policy p).local_cap_per_window n h in
    (
      share (normalize_fallback_policy p).local_cap_per_window n,
      refl,
      b.0,
      omega (arith, b.0, b.2, normalized_caps p),
    )
cap_for_bounds p mode_emergency n h =
    let b = share_bounds (normalize_fallback_policy p).emergency_cap_per_window n h in
    (
      share (normalize_fallback_policy p).emergency_cap_per_window n,
      rw ((normalize_lem p).2),
      b.0,
      omega (arith, b.0, b.2, normalized_caps p),
    )

pub allow_with_cap :
    (fl : FallbackLimiter) (mode : OperatingMode) (store : LocalStore) (now : ℕ) (key : Str)
    (params : RuleParams) (cost cap : ℤ)
    → cap_for (normalize_fallback_policy fl.policy) mode (at_least_one (effective_shard_factor fl))
      ≡ some cap
    → allow fl mode store now key params cost
      ≡ allow_within fl (normalize_fallback_policy fl.policy) store now key params cost cap
unfolding allow
allow_with_cap fl mode store now key params cost cap e = rw (e, allow)

-- The cap of a call, within its bounds.
pub cap_of :
    (fl : FallbackLimiter) (mode : OperatingMode)
    → (cap : ℤ) × (cap_for
          (normalize_fallback_policy fl.policy)
          mode
          (at_least_one (effective_shard_factor fl))
        ≡ some cap)
      × (pos 1 ≤ℤ cap)
      × (cap ≤ℤ pos (ceiling fl.policy))
cap_of fl mode =
    cap_for_bounds fl.policy mode (at_least_one (effective_shard_factor fl)) (at_least_one_pos _)

-- A key that another instance owns is denied and leaves the counters alone, in every mode, also in an
-- emergency, and under every policy, also one whose DenyWhenNotOwner is off or whose
-- EmergencyAllowSmallCap is on.
pub allow-not_owner :
    (fl : FallbackLimiter) (mode : OperatingMode) (store : LocalStore) (now : ℕ) (key : Str)
    (params : RuleParams) (cost : ℤ)
    → owns fl.ownership key ≡ false
    → ((allow fl mode store now key params cost).0 ≡ store)
      × ((allow fl mode store now key params cost).1.allowed ≡ false)
unfolding allow_within
allow-not_owner fl mode store now key params cost other =
    let (cap, e, low, high) = cap_of fl mode in
    rw (allow_with_cap fl mode store now key params cost cap e, (normalize_lem fl.policy).1, other)
      (refl, refl)
