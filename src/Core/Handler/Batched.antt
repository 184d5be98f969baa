-- ===== src/Core/Handler/Batched.antt =====
-- handler.go: CheckLimitBatch. The responses are a list, changed at the indexes of each group.
use distributed_rate_limiter.Base.{
  ℕ, zero, suc, Bool, true, false, ◌||◌, ◌==◌, if◌then◌else◌, Option, none, some, List, [], ◌∷◌,
  length, get_elem?, map,
}
use distributed_rate_limiter.Base.Int.{ℤ, pos, leb_ℤ}
use distributed_rate_limiter.Base.Str.{Str, bytes, is_empty}
use distributed_rate_limiter.Core.Batch.{BatchGroup, plan}
use distributed_rate_limiter.Core.Drain.{InFlight, begin, end_request}
use distributed_rate_limiter.Core.Keys.{build_key}
use distributed_rate_limiter.Core.Limiter.{Instants, allow_batch}
use distributed_rate_limiter.Core.Models.{
  CheckLimitRequest, CheckLimitResponse, Decision, Result, ok, err, Error, app, limiter_error,
  limiter_unavailable, code_invalid_request, code_invalid_cost, code_rule_not_found,
  code_limiter_unavailable, code_limiter_error,
}
use distributed_rate_limiter.Core.Pool.Sharded.{acquire_limiter, release_handle}
use distributed_rate_limiter.Core.RedisClient.{RedisClient}
use distributed_rate_limiter.Core.RuleCache
use distributed_rate_limiter.Observability.{InMemoryMetrics, inc_fallback, observe_latency}
use distributed_rate_limiter.Core.Handler.{
  RateLimitHandler, reset_response, refused, decided, region_label, record_batch_item_error,
  clear_marker, in_flight_of, limiter_at,
}

-- The loop on the requests: a response for each, and the request where it is valid.
unfoldable pub first_response :
    Option CheckLimitRequest → CheckLimitResponse × Option CheckLimitRequest
first_response none = (refused code_invalid_request, none)
first_response (some req) =
    if is_empty req.tenant_id || is_empty req.resource || is_empty req.user_id
    then (refused code_invalid_request, none)
    else if leb_ℤ req.cost (pos 0)
    then (refused code_invalid_cost, none)
    else (reset_response, some req)

abbrev pub response_to : Option CheckLimitRequest → CheckLimitResponse
response_to req = (first_response req).0

abbrev pub valid_of : Option CheckLimitRequest → Option CheckLimitRequest
valid_of req = (first_response req).1

unfoldable pub set_at : ℕ → CheckLimitResponse → List CheckLimitResponse → List CheckLimitResponse
set_at i x [] = []
set_at zero x (y ∷ ys) = x ∷ ys
set_at (suc i) x (y ∷ ys) = y ∷ set_at i x ys

unfoldable pub refuse_all :
    CheckLimitResponse → List ℕ → List CheckLimitResponse → List CheckLimitResponse
unfolding set_at
refuse_all x [] responses = responses
refuse_all x (i ∷ is) responses = refuse_all x is (set_at i x responses)

-- The decisions of a group, put at its indexes.
unfoldable pub decide_group :
    List ℕ → List Decision → List CheckLimitResponse → List CheckLimitResponse
unfolding set_at
decide_group [] ds responses = responses
decide_group (i ∷ is) [] responses = responses
decide_group (i ∷ is) (d ∷ ds) responses = decide_group is ds (set_at i (decided d) responses)

abbrev key_for : Option (Option CheckLimitRequest) → Str
key_for (some (some req)) = build_key req.tenant_id req.user_id req.resource
key_for (some none) = []
key_for none = []

unfoldable pub keys_for : List (Option CheckLimitRequest) → List ℕ → List Str
keys_for valid [] = []
keys_for valid (i ∷ is) = key_for (get_elem? valid i) ∷ keys_for valid is

unfoldable pub fallbacks : Str → List ℕ → InMemoryMetrics → InMemoryMetrics
fallbacks region [] m = m
fallbacks region (i ∷ is) m =
    fallbacks region is (inc_fallback (bytes "fallback") (region_label region) m)

-- The responses of a group to what AllowBatch returns, with the metrics.
unfoldable pub settle_group :
    Str
    → List ℕ
    → Option (List Decision) × Option Error
    → List CheckLimitResponse × InMemoryMetrics
    → List CheckLimitResponse × InMemoryMetrics
unfolding refuse_all decide_group fallbacks
settle_group region indexes (ds, e) (responses, m) =
    let (e', fell_back) = clear_marker e in
    elim e' [
      | some x ↦ (refuse_all (refused code_limiter_error) indexes responses, m)
      | none ↦ elim ds [
        | none ↦ (refuse_all (refused code_limiter_error) indexes responses, m)
        | some ds' ↦
            if length ds' == length indexes
            then (
              decide_group indexes ds' responses,
              (if fell_back then fallbacks region indexes m else m),
            )
            else (refuse_all (refused code_limiter_error) indexes responses, m)
      ]
    ]

unfoldable pub record_items : Str → List CheckLimitResponse → InMemoryMetrics → InMemoryMetrics
record_items region [] m = m
record_items region (x ∷ xs) m =
    record_items region xs (record_batch_item_error region x.error_code m)

module _ (R : RedisClient) where
  -- The part for a group between the acquisition and the release of its handle.
  unfoldable pub use_group :
      Instants
      → List (Option CheckLimitRequest)
      → BatchGroup
      → ℕ × ℕ
      → RateLimitHandler R × List CheckLimitResponse
      → RateLimitHandler R × List CheckLimitResponse
  unfolding settle_group limiter_at keys_for
  use_group at valid g h (s, responses) = elim (limiter_at h s.pool) [
    | none ↦ (s, refuse_all (refused code_limiter_error) g.indexes responses)
    | some lim ↦
        let (w, ds, e) = allow_batch R lim s.world at (keys_for valid g.indexes) g.costs in
        let (responses', m) = settle_group s.region g.indexes (ds, e) (responses, s.metrics) in
        (record s { world = w; metrics = m }, responses')
  ]

  unfoldable pub check_group :
      Instants
      → List (Option CheckLimitRequest)
      → BatchGroup
      → RateLimitHandler R × List CheckLimitResponse
      → RateLimitHandler R × List CheckLimitResponse
  unfolding use_group refuse_all
  check_group at valid g (s, responses) = elim (RuleCache.get g.tenant_id g.resource s.rules) [
    | none ↦ (s, refuse_all (refused code_rule_not_found) g.indexes responses)
    | some rule ↦
        let (pool, answer) = acquire_limiter s.rules g.tenant_id g.resource s.pool in
        let acquired = record s { pool = pool } in
        elim answer [
          | err e ↦ (acquired, refuse_all (refused code_limiter_unavailable) g.indexes responses)
          | ok h ↦
              let (used, responses') = use_group at valid g h (acquired, responses) in
              (record used { pool = release_handle h used.pool }, responses')
        ]
  ]

  -- The loop on the groups; the readings of the clock are by the group's position.
  unfoldable pub check_groups :
      (ℕ → Instants)
      → List (Option CheckLimitRequest)
      → ℕ
      → List BatchGroup
      → RateLimitHandler R × List CheckLimitResponse
      → RateLimitHandler R × List CheckLimitResponse
  unfolding check_group
  check_groups at valid i [] x = x
  check_groups at valid i (g ∷ gs) x =
      check_groups at valid (suc i) gs (check_group (at i) valid g x)

  -- The part of CheckLimitBatch from Begin on, with what Begin returned.
  unfoldable pub serve_batch :
      (ℕ → Instants)
      → ℤ
      → List (Option CheckLimitRequest)
      → InFlight × Bool
      → RateLimitHandler R
      → RateLimitHandler R × Result (List CheckLimitResponse)
  unfolding check_groups record_items
  serve_batch at took reqs (f, false) s =
      (record s { inflight = some f }, err (app limiter_unavailable))
  serve_batch at took reqs (f, true) s =
      let valid = map valid_of reqs in
      let (done, responses) =
        check_groups at valid 0 (plan valid)
          (record s { inflight = some f }, map response_to reqs) in
      (
        record done {
          metrics =
              observe_latency (bytes "checkBatch") took (region_label done.region)
                (record_items done.region responses done.metrics);
          inflight = some (end_request (in_flight_of done.inflight));
        },
        ok responses,
      )

  -- CheckLimitBatch
  unfoldable pub check_limit_batch :
      (ℕ → Instants)
      → ℤ
      → List (Option CheckLimitRequest)
      → RateLimitHandler R
      → RateLimitHandler R × Result (List CheckLimitResponse)
  unfolding serve_batch
  check_limit_batch at took [] s = (s, ok [])
  check_limit_batch at took (r ∷ rs) s =
      if s.initialized
      then serve_batch at took (r ∷ rs) (begin (in_flight_of s.inflight)) s
      else (s, err (app limiter_error))
