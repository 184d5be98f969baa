-- ===== src/Core/Limiter.antt =====
-- limiter.go: a limiter decides by the redis, and by the fallback where the redis is given up.
pub mod Factory
pub mod Laws
mod Examples
use distributed_rate_limiter.Base.{
  ℕ, suc, Bool, true, false, Option, none, some, List, [], ◌∷◌, ◌++◌, ◌==◌, length, if◌then◌else◌,
}
use distributed_rate_limiter.Base.Int.{ℤ, pos}
use distributed_rate_limiter.Base.Str.{Str}
use distributed_rate_limiter.Core.Circuit.{CircuitBreaker, on_success, on_failure}
use distributed_rate_limiter.Core.Circuit
use distributed_rate_limiter.Core.Fallback.{FallbackLimiter, LocalStore}
use distributed_rate_limiter.Core.Fallback
use distributed_rate_limiter.Core.Mode.{OperatingMode, mode_normal, mode_degraded, mode_emergency}
use distributed_rate_limiter.Core.Models.{
  RuleParams, Decision, Result, ok, err, Error, used_fallback, plain,
}
use distributed_rate_limiter.Core.RedisClient.{
  RedisClient, Queued, LimiterAlgorithm, limiter_token_bucket, limiter_fixed_window,
  limiter_sliding_window,
}

pub record RedisLimiter : Type 0 where
  pub algo : LimiterAlgorithm
  pub params : RuleParams

-- RuleVersion
unfoldable pub rule_version : RedisLimiter → ℤ
rule_version lim = lim.params.version

-- The instants at which one call reads the clock.
pub record Instants : Type 0 where
  pub at_allow : ℕ
  pub at_failure : ℕ
  pub at_open : ℕ
  pub at_fallback : ℕ → ℕ

abbrev pub is_emergency : Option OperatingMode → Bool
is_emergency (some mode_emergency) = true
is_emergency (some mode_normal) = false
is_emergency (some mode_degraded) = false
is_emergency none = false

-- Mode() of a controller that may be nil.
abbrev pub mode_of : Option OperatingMode → OperatingMode
mode_of none = mode_normal
mode_of (some m) = m

-- The cost that goes with the i-th key; a missing one is zero.
unfoldable pub cost_at : List ℤ → ℤ
cost_at [] = pos 0
cost_at (c ∷ cs) = c

abbrev pub rest_costs : List ℤ → List ℤ
rest_costs [] = []
rest_costs (c ∷ cs) = cs

module _ (R : RedisClient) where
  -- What a limiter works with. A part that is not configured (nil) is `none`. The fallback has a
  -- pointer to a controller of its own, and reads its mode later than the limiter.
  pub record World : Type 0 where
    pub redis : Option R.State
    pub breaker : Option CircuitBreaker
    pub mode : Option OperatingMode
    pub fallback : Option FallbackLimiter
    pub fallback_mode : Option OperatingMode
    pub local : LocalStore

  -- The exec method; the algorithm is one of the three, by its type.
  unfoldable pub exec_with :
      LimiterAlgorithm → R.State → Str → RuleParams → ℤ → R.State × Result Decision
  exec_with limiter_token_bucket = R.exec_token_bucket
  exec_with limiter_fixed_window = R.exec_fixed_window
  exec_with limiter_sliding_window = R.exec_sliding_window

  unfoldable pub exec : RedisLimiter → Option R.State → Str → ℤ → Option R.State × Result Decision
  unfolding exec_with
  exec lim none key cost = (none, err (plain "redis is nil"))
  exec lim (some s) key cost =
      let (s', answer) = exec_with lim.algo s key lim.params cost in (some s', answer)

  -- fallbackDecision: the decision comes together with the marker error.
  unfoldable pub fallback_decision :
      RedisLimiter → World → Instants → Str → ℤ → World × Option Decision × Option Error
  fallback_decision lim w t key cost = elim w.fallback [
    | none ↦ (w, none, some (plain "fallback is nil"))
    | some fl ↦
        let (local, d) =
          Fallback.allow fl (mode_of w.fallback_mode) w.local (t.at_fallback 0) key lim.params
            cost in
        (record w { local = local }, some d, some used_fallback)
  ]

  unfoldable pub decide_all :
      FallbackLimiter
      → OperatingMode
      → LocalStore
      → RuleParams
      → (ℕ → ℕ)
      → ℕ
      → List Str
      → List ℤ
      → LocalStore × List Decision
  unfolding cost_at
  decide_all fl mode local params at i [] costs = (local, [])
  decide_all fl mode local params at i (key ∷ keys) costs =
      let (local', d) = Fallback.allow fl mode local (at i) key params (cost_at costs) in
      let (end, ds) = decide_all fl mode local' params at (suc i) keys (rest_costs costs) in
      (end, d ∷ ds)

  unfoldable pub fallback_decisions :
      RedisLimiter
      → World
      → Instants
      → List Str
      → List ℤ
      → World × Option (List Decision) × Option Error
  unfolding decide_all
  fallback_decisions lim w t keys costs = elim w.fallback [
    | none ↦ (w, none, some (plain "fallback is nil"))
    | some fl ↦
        let (local, ds) =
          decide_all fl (mode_of w.fallback_mode) w.local lim.params t.at_fallback 0 keys costs in
        (record w { local = local }, some ds, some used_fallback)
  ]

  -- Whether the breaker lets the call through.
  unfoldable pub ask_breaker : Option CircuitBreaker → ℕ → Option CircuitBreaker × Bool
  ask_breaker none now = (none, true)
  ask_breaker (some cb) now = let (cb', go) = Circuit.allow cb now in (some cb', go)

  unfoldable pub tell_success : Option CircuitBreaker → Option CircuitBreaker
  tell_success none = none
  tell_success (some cb) = some (on_success cb)

  unfoldable pub tell_failure : Option CircuitBreaker → Instants → Option CircuitBreaker
  tell_failure none t = none
  tell_failure (some cb) t = some (on_failure cb t.at_failure t.at_open)

  -- The call of the redis, after the breaker has let it through.
  unfoldable pub try_redis :
      RedisLimiter → World → Instants → Str → ℤ → World × Option Decision × Option Error
  unfolding exec fallback_decision tell_success tell_failure
  try_redis lim w t key cost =
      let (redis, answer) = exec lim w.redis key cost in
      elim answer [
        | ok d ↦ (record w { redis = redis; breaker = tell_success w.breaker }, some d, none)
        | err e ↦
            fallback_decision lim (record w { redis = redis; breaker = tell_failure w.breaker t }) t
              key cost
      ]

  -- Allow
  unfoldable pub allow :
      RedisLimiter → World → Instants → Str → ℤ → World × Option Decision × Option Error
  unfolding try_redis ask_breaker
  allow lim w t key cost =
      if is_emergency w.mode
      then fallback_decision lim w t key cost
      else (let (breaker, go) = ask_breaker w.breaker t.at_allow in
          let asked = record w { breaker = breaker } in
          if go then try_redis lim asked t key cost else fallback_decision lim asked t key cost)

  -- The queue method, over all keys.
  unfoldable pub queue_all : RedisLimiter → List Str → List ℤ → List Queued
  unfolding cost_at
  queue_all lim [] costs = []
  queue_all lim (key ∷ keys) costs =
      record { algo = lim.algo; key = key; params = lim.params; cost = cost_at costs }
      ∷ queue_all lim keys (rest_costs costs)

  unfoldable pub settle_batch :
      RedisLimiter
      → World
      → Instants
      → List Str
      → List ℤ
      → Result (List Decision)
      → World × Option (List Decision) × Option Error
  unfolding fallback_decisions tell_success tell_failure
  settle_batch lim w t keys costs (ok ds) =
      if length ds == length keys
      then (record w { breaker = tell_success w.breaker }, some ds, none)
      else fallback_decisions lim (record w { breaker = tell_failure w.breaker t }) t keys costs
  settle_batch lim w t keys costs (err e) =
      fallback_decisions lim (record w { breaker = tell_failure w.breaker t }) t keys costs

  unfoldable pub try_redis_batch :
      RedisLimiter
      → World
      → Instants
      → List Str
      → List ℤ
      → World × Option (List Decision) × Option Error
  unfolding settle_batch queue_all
  try_redis_batch lim w t keys costs = elim w.redis [
    | none ↦ fallback_decisions lim w t keys costs
    | some s ↦
        let (s', answer) = R.exec_pipeline s (queue_all lim keys costs) in
        settle_batch lim (record w { redis = some s' }) t keys costs answer
  ]

  -- AllowBatch
  unfoldable pub allow_batch :
      RedisLimiter
      → World
      → Instants
      → List Str
      → List ℤ
      → World × Option (List Decision) × Option Error
  unfolding try_redis_batch ask_breaker
  allow_batch lim w t keys costs =
      if is_emergency w.mode
      then fallback_decisions lim w t keys costs
      else (let (breaker, go) = ask_breaker w.breaker t.at_allow in
          let asked = record w { breaker = breaker } in
          if go
          then try_redis_batch lim asked t keys costs
          else fallback_decisions lim asked t keys costs)
