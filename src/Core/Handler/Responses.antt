-- ===== src/Core/Handler/Responses.antt =====
-- CheckLimitBatch: the responses after all groups.
use distributed_rate_limiter.Base.{
  ℕ, zero, suc, ◌≡◌, refl, arith, true, false, Option, none, some, List, [], ◌∷◌, length, get_elem?,
  map, length-map, Option-cases, inl, inr, ap, ◌∙◌,
}
use distributed_rate_limiter.Base.Int.{ℤ}
use distributed_rate_limiter.Base.Str.{Str, str_eq_refl}
use distributed_rate_limiter.Core.Batch.{BatchGroup, plan}
use distributed_rate_limiter.Core.Batch.Laws.{
  request_at, group_key, times, times_for, wants, times-plan,
}
use distributed_rate_limiter.Core.Drain.{begin}
use distributed_rate_limiter.Core.Limiter.{Instants}
use distributed_rate_limiter.Core.Models.{
  Result-cases, CheckLimitRequest, CheckLimitResponse, ok, app, invalid_input, invalid_cost,
  ResponseCode, code_invalid_request, code_invalid_cost,
}
use distributed_rate_limiter.Core.Pool.Sharded.{acquire_limiter}
use distributed_rate_limiter.Core.RedisClient.{RedisClient}
use distributed_rate_limiter.Core.RuleCache
use distributed_rate_limiter.Core.Handler.{
  RateLimitHandler, in_flight_of, limiter_at, invalid, refused,
}
use distributed_rate_limiter.Core.Handler.Answers.{begin-goes}
use distributed_rate_limiter.Core.Handler.Batched.{
  first_response, response_to, valid_of, use_group, check_group, check_groups, serve_batch,
  check_limit_batch,
}
use distributed_rate_limiter.Core.Handler.Items.{
  Keeps, trans-Keeps, refuse_all-Keeps, settle_group-Keeps,
}

-- The code of a refusal, where a single call refuses the request for its fields.
pub data Refusal : Option CheckLimitRequest → ResponseCode → Type 0 where
  missing : Refusal none code_invalid_request
  bad_names :
      (req : CheckLimitRequest)
      → invalid req ≡ some (app invalid_input)
      → Refusal (some req) code_invalid_request
  bad_cost :
      (req : CheckLimitRequest)
      → invalid req ≡ some (app invalid_cost)
      → Refusal (some req) code_invalid_cost

first_response-Refusal :
    (r : Option CheckLimitRequest) (code : ResponseCode)
    → Refusal r code
    → first_response r ≡ (refused code, none)
unfolding first_response invalid
first_response-Refusal r code missing = refl
first_response-Refusal r code (bad_names req h) = ground (arith, h)
first_response-Refusal r code (bad_cost req h) = ground (arith, h)

-- An index of no group of its key is in no group.
abbrev Nowhere : ℕ → List BatchGroup → Type 0
Nowhere i [] = Unit {0}
Nowhere i (g ∷ gs) = (times i g.indexes ≡ 0) × Nowhere i gs

nowhere : (i : ℕ) (gs : List BatchGroup) → ((k : Str) → times_for k i gs ≡ 0) → Nowhere i gs
unfolding times_for
nowhere i [] h = tt
nowhere i (g ∷ gs) h = (
  ground (arith, h (group_key g), str_eq_refl (group_key g)),
  nowhere i gs (λ k. ground (arith, h k)),
)

request_at-valid :
    (i : ℕ) (reqs : List (Option CheckLimitRequest)) (r : Option CheckLimitRequest)
    → get_elem? reqs i ≡ some r
    → request_at i (map valid_of reqs) ≡ valid_of r
unfolding request_at
request_at-valid i [] r h = ground (arith, h)
request_at-valid zero (x ∷ xs) r h = ap valid_of (ground (arith, h))
request_at-valid (suc i) (x ∷ xs) r h = request_at-valid i xs r h

none_wanted : (k : Str) → wants k none ≡ 0
unfolding wants
none_wanted k = refl

get_elem?-map :
    (i : ℕ) (reqs : List (Option CheckLimitRequest)) (r : Option CheckLimitRequest)
    → get_elem? reqs i ≡ some r
    → get_elem? (map response_to reqs) i ≡ some (response_to r)
get_elem?-map i [] r h = ground (arith, h)
get_elem?-map zero (x ∷ xs) r h =
    let e : x ≡ r = ground (arith, h) in ap (λ y. some (response_to y)) e
get_elem?-map (suc i) (x ∷ xs) r h = get_elem?-map i xs r h

module _ (R : RedisClient) where
  use_group-Keeps :
      (i : ℕ) (at : Instants) (valid : List (Option CheckLimitRequest)) (g : BatchGroup) (h : ℕ × ℕ)
      (s : RateLimitHandler R) (rs : List CheckLimitResponse)
      → times i g.indexes ≡ 0
      → Keeps i rs (use_group R at valid g h (s, rs)).1
  unfolding use_group
  use_group-Keeps i at valid g h s rs out = elim (Option-cases (limiter_at h s.pool)) [
    | inl e ↦ rw (e, use_group) (refuse_all-Keeps i _ g.indexes rs out)
    | inr (lim, e) ↦
        rw (e, use_group) (settle_group-Keeps i s.region g.indexes _ _ rs s.metrics out)
  ]

  check_group-Keeps :
      (i : ℕ) (at : Instants) (valid : List (Option CheckLimitRequest)) (g : BatchGroup)
      (s : RateLimitHandler R) (rs : List CheckLimitResponse)
      → times i g.indexes ≡ 0
      → Keeps i rs (check_group R at valid g (s, rs)).1
  unfolding check_group
  check_group-Keeps i at valid g s rs out =
      let got = acquire_limiter s.rules g.tenant_id g.resource s.pool in
      elim (Option-cases (RuleCache.get g.tenant_id g.resource s.rules)) [
        | inl e ↦ rw (e, check_group) (refuse_all-Keeps i _ g.indexes rs out)
        | inr (rule, e) ↦ elim (Result-cases got.1) [
          | inl (x, failed) ↦ rw (e, failed, check_group) (refuse_all-Keeps i _ g.indexes rs out)
          | inr (h, there) ↦
              rw (e, there, check_group)
                (use_group-Keeps i at valid g h (record s { pool = got.0 }) rs out)
        ]
      ]

  check_groups-Keeps :
      (i : ℕ) (at : ℕ → Instants) (valid : List (Option CheckLimitRequest)) (j : ℕ)
      (gs : List BatchGroup) (s : RateLimitHandler R) (rs : List CheckLimitResponse)
      → Nowhere i gs
      → Keeps i rs (check_groups R at valid j gs (s, rs)).1
  unfolding check_groups
  check_groups-Keeps i at valid j [] s rs out = (refl, refl)
  check_groups-Keeps i at valid j (g ∷ gs) s rs out =
      let (t, next) = check_group R (at j) valid g (s, rs) in
      trans-Keeps i rs next _ (check_group-Keeps i (at j) valid g s rs out.0)
        (check_groups-Keeps i at valid (suc j) gs t next out.1)

  batch_serves :
      (at : ℕ → Instants) (took : ℤ) (x : Option CheckLimitRequest)
      (xs : List (Option CheckLimitRequest)) (s : RateLimitHandler R)
      → s.initialized ≡ true
      → (in_flight_of s.inflight).closed ≡ false
      → (check_limit_batch R at took (x ∷ xs) s).1
        ≡ ok
            (check_groups R at (map valid_of (x ∷ xs)) 0 (plan (map valid_of (x ∷ xs))) (
              record s { inflight = some (begin (in_flight_of s.inflight)).0 },
              map response_to (x ∷ xs),
            )).1
  unfolding check_limit_batch serve_batch
  batch_serves at took x xs s ready serving =
      let entered : check_limit_batch R at took (x ∷ xs) s
          ≡ serve_batch R at took (x ∷ xs) (begin (in_flight_of s.inflight)) s =
        simp (ready) refl in
      ap (λ t. t.1) entered
      ∙ ap (λ b. (serve_batch R at took (x ∷ xs) b s).1)
          (begin-goes (in_flight_of s.inflight) serving)

  -- A batch to a handler that is set up and does not drain gets a list of responses and no error. It
  -- has one response for each request, and a request that a single call refuses for its names or its
  -- cost, or that is nil, has at its own position the response with the code of that refusal, which
  -- is not allowed, whatever the other requests and their limiters do.
  pub check_limit_batch-Keeps :
      (at : ℕ → Instants) (took : ℤ) (reqs : List (Option CheckLimitRequest))
      (s : RateLimitHandler R) (i : ℕ) (r : Option CheckLimitRequest) (code : ResponseCode)
      → s.initialized ≡ true
      → (in_flight_of s.inflight).closed ≡ false
      → get_elem? reqs i ≡ some r
      → Refusal r code
      → (resps : List CheckLimitResponse) × ((check_limit_batch R at took reqs s).1 ≡ ok resps)
        × (length resps ≡ length reqs)
        × (get_elem? resps i ≡ some (refused code))
  unfolding check_limit_batch serve_batch
  check_limit_batch-Keeps at took [] s i r code ready serving here bad = ground (arith, here)
  check_limit_batch-Keeps at took (x ∷ xs) s i r code ready serving here bad =
      let reqs = x ∷ xs in
      let begun = record s { inflight = some (begin (in_flight_of s.inflight)).0 } in
      let valid = map valid_of reqs in
      let first = first_response-Refusal r code bad in
      let out = nowhere i (plan valid) (λ k.
        times-plan valid k i
        ∙ ap (wants k) (request_at-valid i reqs r here ∙ ap (λ p. p.1) first)
        ∙ none_wanted k) in
      let kept = check_groups-Keeps i at valid 0 (plan valid) begun (map response_to reqs) out in
      (
        (check_groups R at valid 0 (plan valid) (begun, map response_to reqs)).1,
        batch_serves at took x xs s ready serving,
        kept.0 ∙ length-map response_to reqs,
        kept.1 ∙ get_elem?-map i reqs r here ∙ ap (λ p. some p.0) first,
      )
