-- ===== src/Core/Propagation/Examples.antt =====
-- A rule that is invalidated in an instance, and the deliveries of a channel.
use distributed_rate_limiter.Base.{ℕ, ◌≡◌, refl, false, none, some, [], ◌∷◌}
use distributed_rate_limiter.Base.Int.{pos}
use distributed_rate_limiter.Base.Str.{bytes, str_eq}
use distributed_rate_limiter.Base.Assoc.{lookup}
use distributed_rate_limiter.Core.Handler.{limiter_at}
use distributed_rate_limiter.Core.Handler.Sample.{rules, handler}
use distributed_rate_limiter.Core.Limiter.{RedisLimiter}
use distributed_rate_limiter.Core.Limiter.Factory.{
  create, normalize_algorithm, normalized, to_lower, trim_space, underscore, one_of,
}
use distributed_rate_limiter.Core.Models.{ok}
use distributed_rate_limiter.Core.Pool.Sharded.{
  LimiterPool, acquire_limiter, cutover_limiter, new_limiter_pool,
}
use distributed_rate_limiter.Core.RedisClient.{limiter_fixed_window}
use distributed_rate_limiter.Core.RuleCache
use distributed_rate_limiter.Store.Admin.{InvalidationEvent, action_upsert}
use distributed_rate_limiter.Core.Propagation.{CacheInvalidator, PubSub, apply_event}
use distributed_rate_limiter.Core.Propagation.Laws.{apply_event-acquire}

abbrev event : InvalidationEvent
event = record {
  tenant_id = bytes "t";
  resource = bytes "r";
  action = action_upsert;
  version = pos 2;
  timestamp = 9;
}

abbrev invalidator : CacheInvalidator
invalidator = record { db = none; rules = some rules; pool = some handler.pool }

abbrev limiter : RedisLimiter
limiter = record {
  algo = limiter_fixed_window;
  params = record { limit = pos 10; window = pos 1000; burst = pos 0; version = pos 1 };
}

abbrev cut_over : LimiterPool
cut_over = cutover_limiter (bytes "t") (bytes "r") handler.pool

apply_event-acquire_example :
    (h : ℕ × ℕ) × ((acquire_limiter rules (bytes "t") (bytes "r") cut_over).1 ≡ ok h)
    × (limiter_at h (acquire_limiter rules (bytes "t") (bytes "r") cut_over).0 ≡ some limiter)
unfolding apply_event RuleCache.get lookup str_eq create normalize_algorithm normalized to_lower
    trim_space underscore one_of cutover_limiter new_limiter_pool
apply_event-acquire_example =
    apply_event-acquire event invalidator rules handler.pool cut_over
      (record {
        tenant_id = bytes "t";
        resource = bytes "r";
        algorithm = bytes "fixed_window";
        limit = pos 10;
        window = pos 1000;
        burst_size = pos 0;
        version = pos 1;
        updated_at = 0;
      })
      limiter limiter.params refl refl refl refl

abbrev one_subscriber : PubSub
one_subscriber = record { subs = (bytes "a", record { id = 1; done = false } ∷ []) ∷ []; next = 1 }
