-- ===== src/Core/Handler.antt =====
-- handler.go and responsepool.go: one request, and a batch. A call is one step here, its parts in
-- the order of the source; its deferred calls come at its end. Spans are left out, since nothing
-- depends on them, and so is the context: what a call learns from it is in the answers that it gets.
pub mod Pinned
pub mod Lent
pub mod Answers
pub mod Batched
pub mod Items
pub mod Responses
pub mod Balance
pub mod Sample
mod Examples
use distributed_rate_limiter.Base.{
  ℕ, zero, suc, Bool, true, false, not, ◌&&◌, ◌||◌, ◌==◌, if◌then◌else◌, Option, none, some, List,
  [], ◌∷◌, ◌++◌, length, get_elem?, map,
}
use distributed_rate_limiter.Base.Int.{ℤ, pos, leb_ℤ}
use distributed_rate_limiter.Base.Str.{Str, bytes, is_empty}
use distributed_rate_limiter.Core.Batch.{BatchGroup, plan}
use distributed_rate_limiter.Core.Clock.{second}
use distributed_rate_limiter.Core.Coalescer.{Answer}
use distributed_rate_limiter.Core.Drain.{InFlight, new_in_flight, begin, end_request}
use distributed_rate_limiter.Core.Keys.{build_key}
use distributed_rate_limiter.Core.Limiter.{RedisLimiter, Instants, World, allow, allow_batch}
use distributed_rate_limiter.Core.Models.{
  CheckLimitRequest, CheckLimitResponse, Rule, Decision, Result, ok, err, Error, app, used_fallback,
  context_done, plain, invalid_input, invalid_cost, limiter_error, limiter_unavailable,
  ResponseCode, no_error, code_invalid_request, code_invalid_cost, code_rule_not_found,
  code_limiter_unavailable, code_limiter_error,
}
use distributed_rate_limiter.Core.Pool.Sharded.{LimiterPool, acquire_limiter, release_handle}
use distributed_rate_limiter.Core.RedisClient.{RedisClient}
use distributed_rate_limiter.Core.RuleCache.{RulesSnapshot}
use distributed_rate_limiter.Core.RuleCache
use distributed_rate_limiter.Observability.{
  InMemoryMetrics, inc_check, inc_redis_error, inc_fallback, inc_batch_item_error, observe_latency,
}

-- resetCheckLimitResponse: what Get of the pool returns.
abbrev pub reset_response : CheckLimitResponse
reset_response = record {
  allowed = false;
  remaining = pos 0;
  limit = pos 0;
  reset_after = pos 0;
  retry_after = pos 0;
  error_code = no_error;
}

abbrev pub refused : ResponseCode → CheckLimitResponse
refused code = record reset_response { allowed = false; error_code = code }

abbrev pub decided : Decision → CheckLimitResponse
decided d = record {
  allowed = d.allowed;
  remaining = d.remaining;
  limit = d.limit;
  reset_after = d.reset_after;
  retry_after = d.retry_after;
  error_code = no_error;
}

unfoldable pub code_text : ResponseCode → Str
code_text no_error = []
code_text code_invalid_request = bytes "INVALID_REQUEST"
code_text code_invalid_cost = bytes "INVALID_COST"
code_text code_rule_not_found = bytes "RULE_NOT_FOUND"
code_text code_limiter_unavailable = bytes "LIMITER_UNAVAILABLE"
code_text code_limiter_error = bytes "LIMITER_ERROR"

abbrev pub region_label : Str → Str
region_label region = if is_empty region then bytes "unknown" else region

abbrev result_label : CheckLimitResponse → Str
result_label resp = elim resp.error_code [
  | no_error ↦ if resp.allowed then bytes "allowed" else bytes "denied"
  | code ↦ code_text code
]

abbrev is_limiter_failure : ResponseCode → Bool
is_limiter_failure code_limiter_error = true
is_limiter_failure code_limiter_unavailable = true
is_limiter_failure _ = false

unfoldable pub record_check_metrics :
    Str → CheckLimitResponse → Str → Bool → InMemoryMetrics → InMemoryMetrics
unfolding code_text
record_check_metrics region resp algorithm fell_back m =
    let checked = inc_check (result_label resp) algorithm (region_label region) m in
    let failed =
      (if is_limiter_failure resp.error_code
        then inc_redis_error (bytes "allow") (region_label region) checked
        else checked) in
    if fell_back then inc_fallback (bytes "fallback") (region_label region) failed else failed

unfoldable pub record_batch_item_error : Str → ResponseCode → InMemoryMetrics → InMemoryMetrics
unfolding code_text
record_batch_item_error region no_error m = m
record_batch_item_error region code m =
    inc_batch_item_error (code_text code) (region_label region) m

-- The tests of CheckLimit, in their order.
unfoldable pub invalid : CheckLimitRequest → Option Error
invalid req =
    if is_empty req.tenant_id || is_empty req.resource || is_empty req.user_id
    then some (app invalid_input)
    else if leb_ℤ req.cost (pos 0)
    then some (app invalid_cost)
    else none

-- The marker error of a fallback decision is no error.
abbrev pub clear_marker : Option Error → Option Error × Bool
clear_marker none = (none, false)
clear_marker (some used_fallback) = (none, true)
clear_marker (some (app c)) = (some (app c), false)
clear_marker (some context_done) = (some context_done, false)
clear_marker (some (plain s)) = (some (plain s), false)

-- The response to an answer of the coalescer.
unfoldable pub respond : Answer → CheckLimitResponse × Bool
respond (d, e) =
    let (e', fell_back) = clear_marker e in
    (
      elim e' [
        | some x ↦ refused code_limiter_error
        | none ↦ elim d [ none ↦ refused code_limiter_error | some d' ↦ decided d' ]
      ],
      fell_back,
    )

abbrev pub in_flight_of : Option InFlight → InFlight
in_flight_of none = new_in_flight
in_flight_of (some f) = f

-- The limiter of a handle.
unfoldable pub limiter_at : ℕ × ℕ → LimiterPool → Option RedisLimiter
limiter_at (i, h) pool = elim (get_elem? (pool.shard i).handles h) [
  | none ↦ none
  | some x ↦ elim ((pool.shard i).cell x.entry) [ none ↦ none | some e ↦ some e.lim ]
]

module _ (R : RedisClient) where
  -- `initialized`: none of rules, pool, keys and respPool is nil.
  pub record RateLimitHandler : Type 0 where
    pub initialized : Bool
    pub rules : RulesSnapshot
    pub pool : LimiterPool
    pub region : Str
    pub metrics : InMemoryMetrics
    pub inflight : Option InFlight
    pub world : World R

  -- What a call gets from the others: an answer of the coalescer's entry that it joins, if any; its
  -- readings of the clock; and how long it took.
  pub record Circumstances : Type 0 where
    pub joined : Option Answer
    pub at : Instants
    pub took : ℤ

  -- coalescer.Do with the call of the limiter as its function.
  unfoldable pub coalesced :
      Option Answer → RedisLimiter → World R → Instants → Str → ℤ → World R × Answer
  coalesced (some a) lim w t key cost = (w, a)
  coalesced none lim w t key cost = let (w', d, e) = allow R lim w t key cost in (w', (d, e))

  -- The part of CheckLimit between the acquisition and the release of a handle. A handle without a
  -- limiter would stop the program; it is an error here.
  unfoldable pub use_handle :
      Circumstances
      → CheckLimitRequest
      → ℕ × ℕ
      → RateLimitHandler
      → RateLimitHandler × CheckLimitResponse × Bool
  unfolding coalesced respond limiter_at
  use_handle c req h s = elim (limiter_at h s.pool) [
    | none ↦ (s, refused code_limiter_error, false)
    | some lim ↦
        let key = build_key req.tenant_id req.user_id req.resource in
        let (w, a) = coalesced c.joined lim s.world c.at key req.cost in
        let (resp, fell_back) = respond a in (record s { world = w }, resp, fell_back)
  ]

  -- The response to a valid request, with the algorithm and the fallback for the metrics.
  unfoldable pub decide :
      Circumstances
      → CheckLimitRequest
      → RateLimitHandler
      → RateLimitHandler × CheckLimitResponse × Str × Bool
  unfolding use_handle
  decide c req s = elim (RuleCache.get req.tenant_id req.resource s.rules) [
    | none ↦ (s, refused code_rule_not_found, [], false)
    | some rule ↦
        let (pool, answer) = acquire_limiter s.rules req.tenant_id req.resource s.pool in
        let acquired = record s { pool = pool } in
        elim answer [
          | err e ↦ (acquired, refused code_limiter_unavailable, rule.algorithm, false)
          | ok h ↦
              let (used, resp, fell_back) = use_handle c req h acquired in
              (record used { pool = release_handle h used.pool }, resp, rule.algorithm, fell_back)
        ]
  ]

  -- The part of CheckLimit from Begin on, with what Begin returned.
  unfoldable pub serve :
      Circumstances
      → CheckLimitRequest
      → InFlight × Bool
      → RateLimitHandler
      → RateLimitHandler × Result CheckLimitResponse
  unfolding decide
  serve c req (f, false) s = (record s { inflight = some f }, err (app limiter_unavailable))
  serve c req (f, true) s =
      let (done, resp, algorithm, fell_back) = decide c req (record s { inflight = some f }) in
      let recorded = record_check_metrics s.region resp algorithm fell_back done.metrics in
      (
        record done {
          metrics = observe_latency (bytes "check") c.took (region_label s.region) recorded;
          inflight = some (end_request (in_flight_of done.inflight));
        },
        ok resp,
      )

  -- CheckLimit
  unfoldable pub check_limit :
      Circumstances
      → Option CheckLimitRequest
      → RateLimitHandler
      → RateLimitHandler × Result CheckLimitResponse
  unfolding serve
  check_limit c none s = (s, err (app invalid_input))
  check_limit c (some req) s = elim (invalid req) [
    | some e ↦ (s, err e)
    | none ↦
        if s.initialized
        then serve c req (begin (in_flight_of s.inflight)) s
        else (s, err (app limiter_error))
  ]
