-- ===== src/Config/Sources.antt =====
-- The first of several sources of a setting that has a value.
use distributed_rate_limiter.Base.{
  ◌≡◌, refl, arith, if◌then◌else◌, Option, none, some, List, [], ◌∷◌, ap, ◌∙◌,
}
use distributed_rate_limiter.Base.Int.{ℤ}
use distributed_rate_limiter.Core.Circuit.{CircuitOptions}
use distributed_rate_limiter.Core.Fallback.{FallbackPolicy}
use distributed_rate_limiter.Core.Mode.{DegradeThresholds}
use distributed_rate_limiter.Core.Pool.Sharded.{LimiterPolicy}
use distributed_rate_limiter.Config.{
  DurationValue, CircuitOptionsInput, LimiterPolicyInput, FallbackPolicyInput, DegradeThreshInput,
  or_keep, or_keep_ms, or_keep_duration, duration_ms, circuit_options, limiter_policy,
  fallback_policy, degrade_thresholds,
}

-- The first value that is there, or the default.
abbrev pub first_of : {A : Type 0} → List (Option A) → A → A
first_of [] default = default
first_of (none ∷ os) default = first_of os default
first_of (some x ∷ os) default = x

abbrev pub in_ms : Option ℤ → Option ℤ
in_ms none = none
in_ms (some n) = some (duration_ms n)

abbrev pub where_set : Option DurationValue → Option ℤ
where_set none = none
where_set (some d) = if d.set then some d.value else none

pub or_keep-first_of :
    {A : Type 0} (a b c : Option A) (d : A)
    → or_keep a (or_keep b (or_keep c d)) ≡ first_of (a ∷ b ∷ c ∷ []) d
or_keep-first_of (some x) b c d = refl
or_keep-first_of none (some x) c d = refl
or_keep-first_of none none (some x) d = refl
or_keep-first_of none none none d = refl

pub or_keep-first_of_ms :
    (a b : Option ℤ) (c : Option DurationValue) (d : ℤ)
    → or_keep_ms a (or_keep_ms b (or_keep_duration c d))
      ≡ first_of (in_ms a ∷ in_ms b ∷ where_set c ∷ []) d
or_keep-first_of_ms (some x) b c d = refl
or_keep-first_of_ms none (some x) c d = refl
or_keep-first_of_ms none none none d = refl
or_keep-first_of_ms none none (some x) d = ground arith

-- A flag whose value is known, the environment, the file and the default.
pub four_sources :
    {A : Type 0} {x a : Option A} (b c : Option A) (d : A)
    → x ≡ a
    → or_keep x (or_keep b (or_keep c d)) ≡ first_of (a ∷ b ∷ c ∷ []) d
four_sources {A} {x} {a} b c d h =
    ap (λ y. or_keep y (or_keep b (or_keep c d))) h ∙ or_keep-first_of a b c d

pub four_sources_ms :
    {x a : Option ℤ} (b : Option ℤ) (c : Option DurationValue) (d : ℤ)
    → x ≡ a
    → or_keep_ms x (or_keep_ms b (or_keep_duration c d))
      ≡ first_of (in_ms a ∷ in_ms b ∷ where_set c ∷ []) d
four_sources_ms {x} {a} b c d h =
    ap (λ y. or_keep_ms y (or_keep_ms b (or_keep_duration c d))) h ∙ or_keep-first_of_ms a b c d

pub file_source : {A : Type 0} (c : Option A) (d : A) → or_keep c d ≡ first_of (c ∷ []) d
file_source none d = refl
file_source (some x) d = refl

pub file_source_duration :
    (c : Option DurationValue) (d : ℤ) → or_keep_duration c d ≡ first_of (where_set c ∷ []) d
file_source_duration none d = refl
file_source_duration (some x) d = ground arith

-- A part of a group of settings, where the file has the group.
abbrev pub part : {A B : Type 0} → (A → Option B) → Option A → Option B
part f none = none
part f (some x) = f x

pub circuit_parts :
    (x : Option CircuitOptionsInput) (c : CircuitOptions)
    → circuit_options x c ≡ record {
      failure_threshold = or_keep (part (λ p. p.failure_threshold) x) c.failure_threshold;
      open_duration = or_keep_duration (part (λ p. p.open_duration) x) c.open_duration;
      half_open_max_calls = or_keep (part (λ p. p.half_open_max_calls) x) c.half_open_max_calls;
    }
circuit_parts none c = refl
circuit_parts (some o) c = refl

pub limiter_parts :
    (x : Option LimiterPolicyInput) (p : LimiterPolicy)
    → limiter_policy x p ≡ record {
      shards = first_of (part (λ o. o.shards) x ∷ []) p.shards;
      max_entries_shard = first_of (part (λ o. o.max_entries_shard) x ∷ []) p.max_entries_shard;
      quiesce_window = first_of (where_set (part (λ o. o.quiesce_window) x) ∷ []) p.quiesce_window;
      close_timeout = first_of (where_set (part (λ o. o.close_timeout) x) ∷ []) p.close_timeout;
    }
limiter_parts none p = refl
limiter_parts (some o) p = simp (file_source, file_source_duration) refl

pub fallback_parts :
    (x : Option FallbackPolicyInput) (p : FallbackPolicy)
    → fallback_policy x p ≡ record {
      local_cap_per_window =
          first_of (part (λ o. o.local_cap_per_window) x ∷ []) p.local_cap_per_window;
      deny_when_not_owner =
          first_of (part (λ o. o.deny_when_not_owner) x ∷ []) p.deny_when_not_owner;
      emergency_allow_small_cap =
          first_of (part (λ o. o.emergency_allow_small_cap) x ∷ []) p.emergency_allow_small_cap;
      emergency_cap_per_window =
          first_of (part (λ o. o.emergency_cap_per_window) x ∷ []) p.emergency_cap_per_window;
    }
fallback_parts none p = refl
fallback_parts (some o) p = simp (file_source) refl

pub degrade_parts :
    (x : Option DegradeThreshInput) (t : DegradeThresholds)
    → degrade_thresholds x t ≡ record {
      redis_unhealthy_for =
          first_of (where_set (part (λ o. o.redis_unhealthy_for) x) ∷ []) t.redis_unhealthy_for;
      membership_unhealthy =
          first_of (where_set (part (λ o. o.membership_unhealthy) x) ∷ []) t.membership_unhealthy;
      error_rate_window =
          first_of (where_set (part (λ o. o.error_rate_window) x) ∷ []) t.error_rate_window;
    }
degrade_parts none t = refl
degrade_parts (some o) t = simp (file_source_duration) refl
