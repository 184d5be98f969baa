-- ===== src/Core/Handler/Examples.antt =====
-- Calls of the sample handler.
use distributed_rate_limiter.Base.{◌≡◌, refl, Option, none, some, List, [], ◌∷◌, length, get_elem?}
use distributed_rate_limiter.Base.Int.{pos}
use distributed_rate_limiter.Base.Str.{bytes, str_eq}
use distributed_rate_limiter.Base.Assoc.{lookup}
use distributed_rate_limiter.Core.Drain.{new_in_flight, begin}
use distributed_rate_limiter.Core.Models.{
  CheckLimitRequest, CheckLimitResponse, ok, code_invalid_cost, code_rule_not_found,
}
use distributed_rate_limiter.Core.RuleCache.{RulesSnapshot}
use distributed_rate_limiter.Core.RuleCache
use distributed_rate_limiter.Core.Handler.{
  refused, in_flight_of, invalid, check_limit, decide, serve,
}
use distributed_rate_limiter.Core.Handler.Answers.{Answered, check_limit-Answered}
use distributed_rate_limiter.Core.Handler.Balance.{
  SamePins, check_limit-Kept, check_limit_batch-Kept,
}
use distributed_rate_limiter.Core.Handler.Batched.{check_limit_batch}
use distributed_rate_limiter.Core.Handler.Responses.{bad_cost, check_limit_batch-Keeps}
use distributed_rate_limiter.Core.Handler.Sample.{redis, fallback, handler, at, alone, request}

abbrev free_request : CheckLimitRequest
free_request = record request { cost = pos 0 }

abbrev batch : List (Option CheckLimitRequest)
batch = some request ∷ some free_request ∷ none ∷ some request ∷ []

check_limit-Answered_example :
    (resp : CheckLimitResponse) × ((check_limit redis alone (some request) handler).1 ≡ ok resp)
    × Answered redis alone request handler resp
unfolding invalid new_in_flight
check_limit-Answered_example =
    check_limit-Answered redis alone request handler fallback refl refl refl refl refl

check_limit-Kept_example :
    (in_flight_of (check_limit redis alone (some request) handler).0.inflight ≡ new_in_flight)
    × SamePins handler.pool (check_limit redis alone (some request) handler).0.pool
check_limit-Kept_example = check_limit-Kept redis alone (some request) handler

check_limit_batch-Kept_example :
    (in_flight_of (check_limit_batch redis (λ i. at) (pos 40) batch handler).0.inflight
      ≡ new_in_flight)
    × SamePins handler.pool (check_limit_batch redis (λ i. at) (pos 40) batch handler).0.pool
check_limit_batch-Kept_example = check_limit_batch-Kept redis (λ i. at) (pos 40) batch handler

check_limit_batch-Keeps_example :
    (resps : List CheckLimitResponse) × ((check_limit_batch redis
        (λ i. at)
        (pos 40)
        batch
        handler).1
      ≡ ok resps)
    × (length resps ≡ 4)
    × (get_elem? resps 1 ≡ some (refused code_invalid_cost))
unfolding invalid new_in_flight
check_limit_batch-Keeps_example =
    check_limit_batch-Keeps redis (λ i. at) (pos 40) batch handler 1 (some free_request)
      code_invalid_cost refl refl refl (bad_cost free_request refl)

-- A request of a tenant without rules.
unruled :
    (check_limit redis alone (some (record request { tenant_id = bytes "x" })) handler).1
    ≡ ok (refused code_rule_not_found)
unfolding check_limit serve decide invalid RuleCache.get lookup str_eq begin new_in_flight
unruled = refl
