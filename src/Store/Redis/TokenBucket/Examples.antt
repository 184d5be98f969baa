-- ===== src/Store/Redis/TokenBucket/Examples.antt =====
-- Runs of the token bucket, over whole numbers in place of float64.
use distributed_rate_limiter.Base.{◌≡◌, refl, true, arith}
use distributed_rate_limiter.Base.Int.{ℤ, pos, ◌+ℤ◌, ◌-ℤ◌}
use distributed_rate_limiter.Base.Float.Whole.{whole, whole_laws}
use distributed_rate_limiter.Base.Str.{bytes, str_eq}
use distributed_rate_limiter.Base.Assoc.{lookup, insert}
use distributed_rate_limiter.Core.Clock.{sub_time}
use distributed_rate_limiter.Core.Models.{RuleParams, ok}
use distributed_rate_limiter.Store.Redis.{InMemoryRedis, admit, new_in_memory_redis}
use distributed_rate_limiter.Store.Redis.TokenBucket.{
  capacity_of, rate_of, bucket_of, refill, spend, wait_for, refill_time, exec_token_bucket,
}
use distributed_rate_limiter.Store.Redis.TokenBucket.Laws.{Filled, exec-Filled}

abbrev params : RuleParams
params = record { limit = pos 10; window = pos 5; burst = pos 20; version = pos 1 }

program : Unit {0}
unfolding lookup insert str_eq sub_time admit new_in_memory_redis capacity_of rate_of bucket_of
    refill spend wait_for refill_time exec_token_bucket ◌+ℤ◌ ◌-ℤ◌
program = tt

abbrev after_first : InMemoryRedis ℤ
after_first = (exec_token_bucket whole new_in_memory_redis 100 (bytes "t") params (pos 15)).0

-- Fifteen of twenty tokens are spent; four later, eight more have come, two for each instant.
second_call :
    (exec_token_bucket whole after_first 104 (bytes "t") params (pos 9)).1
    ≡ ok (record {
      allowed = true;
      remaining = pos 4;
      limit = pos 10;
      reset_after = pos 8_000_000_000;
      retry_after = pos 0;
    })
unfolding program
second_call = refl

exec-Filled_example :
    Filled whole whole_laws (capacity_of params) (lookup (bytes "t") after_first.token_buckets)
unfolding new_in_memory_redis lookup
exec-Filled_example =
    exec-Filled whole whole_laws (λ _. params) new_in_memory_redis 100 (bytes "t") (pos 15)
      (λ k. tt) (omega arith) (bytes "t")
