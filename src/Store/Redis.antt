-- ===== src/Store/Redis.antt =====
-- redis_inmemory.go: the state of the in-memory redis, and what its three operations do first.
-- The mutex makes each operation one step. The clock is read once in each, and is an argument.
pub mod FixedWindow
pub mod SlidingWindow
pub mod TokenBucket
pub mod Pipeline
use distributed_rate_limiter.Base.{
  ℕ, Bool, true, false, not, ◌||◌, Option, none, some, List, [], if◌then◌else◌,
}
use distributed_rate_limiter.Base.Int.{ℤ, pos, leb_ℤ}
use distributed_rate_limiter.Base.Assoc.{Assoc}
use distributed_rate_limiter.Core.Clock.{second}
use distributed_rate_limiter.Core.Models.{RuleParams, Result, ok, err, plain}
use distributed_rate_limiter.Core.Window.{WindowCounter}

pub record TbState (F : Type 0) : Type 0 where
  pub tokens : F
  pub last : ℕ

pub record SwEvent : Type 0 where
  pub t : ℕ
  pub cost : ℤ

pub record SwState : Type 0 where
  pub window : ℤ
  pub events : List SwEvent

pub record InMemoryRedis (F : Type 0) : Type 0 where
  pub token_buckets : Assoc (TbState F)
  pub fixed_windows : Assoc WindowCounter
  pub sliding_windows : Assoc SwState
  pub healthy : Bool
  pub window_default : ℤ

unfoldable pub new_in_memory_redis : {F : Type 0} → InMemoryRedis F
new_in_memory_redis = record {
  token_buckets = [];
  fixed_windows = [];
  sliding_windows = [];
  healthy = true;
  window_default = second;
}

unfoldable pub set_healthy : {F : Type 0} → Bool → InMemoryRedis F → InMemoryRedis F
set_healthy v r = record r { healthy = v }

-- The guards of an operation; the result is the window that it works with.
unfoldable pub admit : {F : Type 0} → InMemoryRedis F → RuleParams → ℤ → Result ℤ
admit r params cost =
    if not r.healthy
    then err (plain "redis unhealthy")
    else (if leb_ℤ cost (pos 0) || leb_ℤ params.limit (pos 0)
        then err (plain "invalid cost or limit")
        else ok (if leb_ℤ params.window (pos 0) then r.window_default else params.window))
