-- ===== src/Store/Redis/TokenBucket.antt =====
-- execTokenBucketLocked of redis_inmemory.go, over any float64.
pub mod Laws
mod Examples
use distributed_rate_limiter.Base.{
  ℕ, Bool, true, false, not, ◌&&◌, Option, none, some, if◌then◌else◌,
}
use distributed_rate_limiter.Base.Int.{ℤ, pos, ltb_ℤ}
use distributed_rate_limiter.Base.Float.{Float64}
use distributed_rate_limiter.Base.Str.{Str}
use distributed_rate_limiter.Base.Assoc.{lookup, insert}
use distributed_rate_limiter.Core.Clock.{sub_time, second}
use distributed_rate_limiter.Core.Models.{RuleParams, Decision, Result, ok, err}
use distributed_rate_limiter.Store.Redis.{InMemoryRedis, TbState, admit}

-- The larger of the limit and the burst.
unfoldable pub capacity_of : RuleParams → ℤ
capacity_of params = if ltb_ℤ params.limit params.burst then params.burst else params.limit

module _ (fl : Float64) where
  open fl use {F, of_int, seconds, add, sub, mul, div, min, le, lt, floor_int, to_duration}

  abbrev pub zero_f : F
  zero_f = of_int (pos 0)

  unfoldable pub rate_of : RuleParams → ℤ → F
  rate_of params window = div (of_int params.limit) (seconds window)

  unfoldable pub bucket_of : ℤ → ℕ → Option (TbState F) → TbState F
  bucket_of capacity now none = record { tokens = of_int capacity; last = now }
  bucket_of capacity now (some s) = s

  -- The tokens that the time since the last request adds, up to the capacity.
  unfoldable pub refill : ℤ → F → ℕ → TbState F → F
  refill capacity rate now s =
      let elapsed = seconds (sub_time now s.last) in
      if lt zero_f elapsed
      then min (of_int capacity) (add s.tokens (mul elapsed rate))
      else s.tokens

  unfoldable pub spend : ℤ → F → F
  spend cost tokens = if le (of_int cost) tokens then sub tokens (of_int cost) else tokens

  unfoldable pub wait_for : Bool → ℤ → F → F → ℤ
  wait_for allowed cost rate tokens =
      let needed = sub (of_int cost) tokens in
      let floored = if lt needed zero_f then zero_f else needed in
      if not allowed && lt zero_f rate
      then to_duration (mul (div floored rate) (of_int second))
      else pos 0

  unfoldable pub refill_time : ℤ → F → F → ℤ
  refill_time capacity rate tokens =
      if lt zero_f rate
      then to_duration (mul (div (sub (of_int capacity) tokens) rate) (of_int second))
      else pos 0

  unfoldable pub exec_token_bucket :
      InMemoryRedis F → ℕ → Str → RuleParams → ℤ → InMemoryRedis F × Result Decision
  exec_token_bucket r now key params cost = elim (admit r params cost) [
    | err e ↦ (r, err e)
    | ok window ↦
        let capacity = capacity_of params in
        let rate = rate_of params window in
        let bucket = bucket_of capacity now (lookup key r.token_buckets) in
        let tokens = refill capacity rate now bucket in
        let allowed = le (of_int cost) tokens in
        let left = spend cost tokens in
        (
          record r {
            token_buckets = insert key (record { tokens = left; last = now }) r.token_buckets;
          },
          ok (record {
            allowed = allowed;
            remaining = floor_int left;
            limit = params.limit;
            reset_after = refill_time capacity rate left;
            retry_after = wait_for allowed cost rate left;
          }),
        )
  ]
