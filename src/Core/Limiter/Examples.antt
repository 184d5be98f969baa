-- ===== src/Core/Limiter/Examples.antt =====
-- A limiter over a redis that answers or fails as a whole.
use distributed_rate_limiter.Base.{◌+◌, refl, Bool, true, false, none, some, [], ◌∷◌}
use distributed_rate_limiter.Base.Int.{pos}
use distributed_rate_limiter.Base.Str.{Str, bytes}
use distributed_rate_limiter.Core.Models.{Rule, RuleParams, Decision, Result, ok, err, plain}
use distributed_rate_limiter.Core.Mode.{OperatingMode, mode_normal}
use distributed_rate_limiter.Core.Fallback.{FallbackLimiter}
use distributed_rate_limiter.Core.RedisClient.{RedisClient, limiter_fixed_window}
use distributed_rate_limiter.Core.Limiter.{RedisLimiter, Instants, World, allow_batch}
use distributed_rate_limiter.Core.Limiter.Laws.{Complete, allow_batch-Complete}

abbrev answer : Bool → Bool × Result Decision
answer true = (
  true,
  ok (record {
    allowed = true;
    remaining = pos 1;
    limit = pos 10;
    reset_after = pos 0;
    retry_after = pos 0;
  }),
)
answer false = (false, err (plain "redis unhealthy"))

-- Its state is whether it is up.
abbrev redis : RedisClient
redis = record {
  State = Bool;
  healthy = λ up. up;
  exec_token_bucket = λ up _ _ _. answer up;
  exec_fixed_window = λ up _ _ _. answer up;
  exec_sliding_window = λ up _ _ _. answer up;
  exec_pipeline = λ up _. (up, err (plain "redis unhealthy"));
}

abbrev params : RuleParams
params = record { limit = pos 10; window = pos 1000; burst = pos 0; version = pos 1 }

abbrev limiter : RedisLimiter
limiter = record { algo = limiter_fixed_window; params = params }

abbrev fallback : FallbackLimiter
fallback = record {
  ownership = none;
  mship = none;
  region = bytes "eu";
  region_group = [];
  policy = record {
    local_cap_per_window = pos 20;
    deny_when_not_owner = true;
    emergency_allow_small_cap = true;
    emergency_cap_per_window = pos 5;
  };
}

abbrev world : OperatingMode → World redis
world mode = record {
  redis = some false;
  breaker = none;
  mode = some mode;
  fallback = some fallback;
  fallback_mode = some mode;
  local = [];
}

abbrev instants : Instants
instants = record {
  at_allow = 5000;
  at_failure = 5001;
  at_open = 5002;
  at_fallback = λ i. 5003 + i;
}

abbrev key : Str
key = bytes "t"

allow_batch-Complete_example :
    Complete redis limiter
      (key ∷ key ∷ [])
      (allow_batch redis limiter (world mode_normal) instants (key ∷ key ∷ []) (pos 1 ∷ pos 2 ∷ []))
allow_batch-Complete_example =
    allow_batch-Complete redis limiter (world mode_normal) instants (key ∷ key ∷ [])
      (pos 1 ∷ pos 2 ∷ []) fallback refl

abbrev rule : Rule
rule = record {
  tenant_id = bytes "t";
  resource = bytes "r";
  algorithm = bytes "Fixed Window";
  limit = pos 10;
  window = pos 1000;
  burst_size = pos 0;
  version = pos 1;
  updated_at = 5000;
}
