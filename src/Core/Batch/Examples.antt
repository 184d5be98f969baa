-- ===== src/Core/Batch/Examples.antt =====
-- The plan of a concrete batch.
use distributed_rate_limiter.Base.{◌≡◌, refl, Option, none, some, List, [], ◌∷◌}
use distributed_rate_limiter.Base.Int.{pos}
use distributed_rate_limiter.Base.Str.{Str, bytes, str_eq}
use distributed_rate_limiter.Base.Assoc.{lookup, insert}
use distributed_rate_limiter.Core.Keys.{limiter_pool_key}
use distributed_rate_limiter.Core.Models.{CheckLimitRequest}
use distributed_rate_limiter.Core.Batch.{extend_at, plan_from, plan}
use distributed_rate_limiter.Core.Batch.Laws.{request_at, times_for, wants, times-plan}

abbrev request : Str → CheckLimitRequest
request resource = record {
  trace_id = [];
  tenant_id = bytes "t";
  user_id = bytes "u";
  resource = resource;
  cost = pos 1;
}

abbrev batch : List (Option CheckLimitRequest)
batch =
    some (request (bytes "a")) ∷ none ∷ some (request (bytes "b")) ∷ some (request (bytes "a")) ∷ []

-- The groups of the two resources, in the order of their first requests.
two_groups :
    plan batch
    ≡ record {
      tenant_id = bytes "t";
      resource = bytes "a";
      indexes = 0 ∷ 3 ∷ [];
      keys = none ∷ none ∷ [];
      costs = pos 1 ∷ pos 1 ∷ [];
    }
      ∷ record {
        tenant_id = bytes "t";
        resource = bytes "b";
        indexes = 2 ∷ [];
        keys = none ∷ [];
        costs = pos 1 ∷ [];
      }
      ∷ []
unfolding plan plan_from extend_at lookup insert str_eq limiter_pool_key
two_groups = refl

times-plan_example : times_for (limiter_pool_key (bytes "t") (bytes "a")) 3 (plan batch) ≡ 1
unfolding wants request_at str_eq limiter_pool_key
times-plan_example = times-plan batch (limiter_pool_key (bytes "t") (bytes "a")) 3
