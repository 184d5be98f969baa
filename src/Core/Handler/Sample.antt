-- ===== src/Core/Handler/Sample.antt =====
-- A handler with one rule, over a redis that is down, for the tests.
use distributed_rate_limiter.Base.{◌+◌, true, false, none, some, [], ◌∷◌}
use distributed_rate_limiter.Base.Int.{pos}
use distributed_rate_limiter.Base.Str.{bytes}
use distributed_rate_limiter.Core.Drain.{new_in_flight}
use distributed_rate_limiter.Core.Fallback.{FallbackLimiter}
use distributed_rate_limiter.Core.Limiter.{Instants}
use distributed_rate_limiter.Core.Mode.{mode_normal}
use distributed_rate_limiter.Core.Models.{CheckLimitRequest, err, plain}
use distributed_rate_limiter.Core.Pool.Sharded.{new_limiter_pool}
use distributed_rate_limiter.Core.RedisClient.{RedisClient}
use distributed_rate_limiter.Core.RuleCache.{RulesSnapshot}
use distributed_rate_limiter.Observability.{new_in_memory_metrics}
use distributed_rate_limiter.Core.Handler.{RateLimitHandler, Circumstances}

abbrev pub redis : RedisClient
redis = record {
  State = Unit {0};
  healthy = λ s. false;
  exec_token_bucket = λ s _ _ _. (s, err (plain "redis unhealthy"));
  exec_fixed_window = λ s _ _ _. (s, err (plain "redis unhealthy"));
  exec_sliding_window = λ s _ _ _. (s, err (plain "redis unhealthy"));
  exec_pipeline = λ s _. (s, err (plain "redis unhealthy"));
}

abbrev pub fallback : FallbackLimiter
fallback = record {
  ownership = none;
  mship = none;
  region = bytes "eu";
  region_group = [];
  policy = record {
    local_cap_per_window = pos 20;
    deny_when_not_owner = true;
    emergency_allow_small_cap = true;
    emergency_cap_per_window = pos 5;
  };
}

abbrev pub rules : RulesSnapshot
rules =
    (
      bytes "t",
      (
        bytes "r",
        record {
          tenant_id = bytes "t";
          resource = bytes "r";
          algorithm = bytes "fixed_window";
          limit = pos 10;
          window = pos 1000;
          burst_size = pos 0;
          version = pos 1;
          updated_at = 0;
        },
      )
          ∷ [],
    )
    ∷ []

abbrev pub handler : RateLimitHandler redis
handler = record {
  initialized = true;
  rules = rules;
  pool =
      new_limiter_pool (record { has_redis = true; has_fallback = true; has_mode = true })
        (record {
          shards = pos 1;
          max_entries_shard = pos 2;
          quiesce_window = pos 0;
          close_timeout = pos 0;
        });
  region = bytes "eu";
  metrics = new_in_memory_metrics;
  inflight = some new_in_flight;
  world = record {
    redis = some tt;
    breaker = none;
    mode = some mode_normal;
    fallback = some fallback;
    fallback_mode = some mode_normal;
    local = [];
  };
}

abbrev pub at : Instants
at = record { at_allow = 5000; at_failure = 5001; at_open = 5002; at_fallback = λ i. 5003 + i }

abbrev pub alone : Circumstances redis
alone = record { joined = none; at = at; took = pos 40 }

abbrev pub request : CheckLimitRequest
request = record {
  trace_id = [];
  tenant_id = bytes "t";
  user_id = bytes "u";
  resource = bytes "r";
  cost = pos 1;
}
