-- ===== src/Core/Handler/Balance.antt =====
-- What a call leaves behind: as many requests in flight as before, and as many open handles.
use distributed_rate_limiter.Base.{
  ℕ, suc, ◌≡◌, refl, arith, true, false, Option, none, some, List, [], ◌∷◌, map, Bool-cases,
  Option-cases, inl, inr, ap, ◌∙◌,
}
use distributed_rate_limiter.Base.Int.{ℤ}
use distributed_rate_limiter.Core.Batch.{BatchGroup, plan}
use distributed_rate_limiter.Core.Drain.{InFlight, begin, end_request}
use distributed_rate_limiter.Core.Limiter.{Instants}
use distributed_rate_limiter.Core.Models.{
  Result-cases, CheckLimitRequest, CheckLimitResponse, Result, ok, err, Error,
}
use distributed_rate_limiter.Core.Pool.Counts.{pins}
use distributed_rate_limiter.Core.Pool.Sharded.{LimiterPool, acquire_limiter, release_handle}
use distributed_rate_limiter.Core.RedisClient.{RedisClient}
use distributed_rate_limiter.Core.RuleCache
use distributed_rate_limiter.Core.Handler.{
  RateLimitHandler, Circumstances, invalid, in_flight_of, limiter_at, use_handle, decide, serve,
  check_limit,
}
use distributed_rate_limiter.Core.Handler.Batched.{
  response_to, valid_of, use_group, check_group, check_groups, serve_batch, check_limit_batch,
}
use distributed_rate_limiter.Core.Handler.Answers.{begin-goes}
use distributed_rate_limiter.Core.Handler.Lent.{Lent, acquire_limiter-Lent}

-- A request that has begun and ended, with no drain in between, leaves no trace in the tracker.
end_request-begin : (f : InFlight) → f.closed ≡ false → end_request (begin f).0 ≡ f
unfolding begin end_request
end_request-begin f h = rw (h, begin, end_request) (grind arith)

begin-turned_away : (f : InFlight) → f.closed ≡ true → begin f ≡ (f, false)
unfolding begin
begin-turned_away f h = rw (h) refl

-- The open handles of all entries.
abbrev pub SamePins : LimiterPool → LimiterPool → Type 0
SamePins before after = (i q : ℕ) → pins q (after.shard i).handles ≡ pins q (before.shard i).handles

Lent-back :
    (pool : LimiterPool) (got : LimiterPool × Result (ℕ × ℕ)) (h : ℕ × ℕ)
    → got.1 ≡ ok h
    → Lent pool got
    → SamePins pool (release_handle h got.0)
Lent-back pool (after, err e) h there l = ground (arith, there)
Lent-back pool (after, ok g) h there l =
    let same : g ≡ h = ground (arith, there) in rw (← same) (l.1)

not-Lent :
    (pool : LimiterPool) (got : LimiterPool × Result (ℕ × ℕ)) (e : Error)
    → got.1 ≡ err e
    → Lent pool got
    → SamePins pool got.0
not-Lent pool (after, err x) e there l = l
not-Lent pool (after, ok g) e there l = ground (arith, there)

module _ (R : RedisClient) where
  abbrev pub Kept : RateLimitHandler R → RateLimitHandler R → Type 0
  Kept s t = (t.inflight ≡ s.inflight) × SamePins s.pool t.pool

  -- What happens with the handle keeps the pool and the tracker.
  use_handle-keeps :
      (c : Circumstances R) (req : CheckLimitRequest) (h : ℕ × ℕ) (s : RateLimitHandler R)
      → ((use_handle R c req h s).0.inflight ≡ s.inflight)
        × ((use_handle R c req h s).0.pool ≡ s.pool)
  unfolding use_handle
  use_handle-keeps c req h s = elim (Option-cases (limiter_at h s.pool)) [
    | inl e ↦ rw (e, use_handle) (refl, refl)
    | inr (lim, e) ↦ rw (e, use_handle) (refl, refl)
  ]

  decide-Kept :
      (c : Circumstances R) (req : CheckLimitRequest) (s : RateLimitHandler R)
      → Kept s (decide R c req s).0
  unfolding decide
  decide-Kept c req s =
      let got = acquire_limiter s.rules req.tenant_id req.resource s.pool in
      let lent = acquire_limiter-Lent s.rules req.tenant_id req.resource s.pool in
      elim (Option-cases (RuleCache.get req.tenant_id req.resource s.rules)) [
        | inl e ↦ rw (e, decide) (refl, λ i q. refl)
        | inr (rule, e) ↦ elim (Result-cases got.1) [
          | inl (x, failed) ↦ rw (e, failed, decide) (refl, not-Lent s.pool got x failed lent)
          | inr (h, there) ↦
              let kept = use_handle-keeps c req h (record s { pool = got.0 }) in
              rw (e, there, decide)
                (kept.0, λ i q. rw (kept.1) (Lent-back s.pool got h there lent i q))
        ]
      ]

  serve-Kept :
      (c : Circumstances R) (req : CheckLimitRequest) (f : InFlight) (s : RateLimitHandler R)
      → (in_flight_of (serve R c req (begin f) s).0.inflight ≡ f)
        × SamePins s.pool (serve R c req (begin f) s).0.pool
  unfolding serve
  serve-Kept c req f s =
      let kept = decide-Kept c req (record s { inflight = some (begin f).0 }) in
      elim (Bool-cases f.closed) [
        | inl closed ↦
            rw (begin-turned_away f closed, serve)
              (ap (λ b. b.0) (begin-turned_away f closed), λ i q. refl)
        | inr serving ↦
            rw (begin-goes f serving, serve)
              (ap (λ g. end_request (in_flight_of g)) kept.0 ∙ end_request-begin f serving, kept.1)
      ]

  -- A call of CheckLimit, whatever its request, its answer and its circumstances, leaves the
  -- tracker of requests in flight as it was, and every entry of the pool with as many open handles
  -- as before.
  pub check_limit-Kept :
      (c : Circumstances R) (req : Option CheckLimitRequest) (s : RateLimitHandler R)
      → (in_flight_of (check_limit R c req s).0.inflight ≡ in_flight_of s.inflight)
        × SamePins s.pool (check_limit R c req s).0.pool
  unfolding check_limit
  check_limit-Kept c none s = (refl, λ i q. refl)
  check_limit-Kept c (some req) s = elim (Option-cases (invalid req)) [
    | inr (e, bad) ↦ rw (bad, check_limit) (refl, λ i q. refl)
    | inl valid ↦ elim (Bool-cases s.initialized) [
      | inr unset ↦ rw (valid, unset, check_limit) (refl, λ i q. refl)
      | inl ready ↦
          rw (valid, check_limit) (simp (ready) (serve-Kept c req (in_flight_of s.inflight) s))
    ]
  ]

  use_group-Kept :
      (at : Instants) (valid : List (Option CheckLimitRequest)) (g : BatchGroup) (h : ℕ × ℕ)
      (s : RateLimitHandler R) (responses : List CheckLimitResponse)
      → ((use_group R at valid g h (s, responses)).0.inflight ≡ s.inflight)
        × ((use_group R at valid g h (s, responses)).0.pool ≡ s.pool)
  unfolding use_group
  use_group-Kept at valid g h s responses = elim (Option-cases (limiter_at h s.pool)) [
    | inl e ↦ rw (e, use_group) (refl, refl)
    | inr (lim, e) ↦ rw (e, use_group) (refl, refl)
  ]

  check_group-Kept :
      (at : Instants) (valid : List (Option CheckLimitRequest)) (g : BatchGroup)
      (s : RateLimitHandler R) (responses : List CheckLimitResponse)
      → Kept s (check_group R at valid g (s, responses)).0
  unfolding check_group
  check_group-Kept at valid g s responses =
      let got = acquire_limiter s.rules g.tenant_id g.resource s.pool in
      let lent = acquire_limiter-Lent s.rules g.tenant_id g.resource s.pool in
      elim (Option-cases (RuleCache.get g.tenant_id g.resource s.rules)) [
        | inl e ↦ rw (e, check_group) (refl, λ i q. refl)
        | inr (rule, e) ↦ elim (Result-cases got.1) [
          | inl (x, failed) ↦ rw (e, failed, check_group) (refl, not-Lent s.pool got x failed lent)
          | inr (h, there) ↦
              let kept = use_group-Kept at valid g h (record s { pool = got.0 }) responses in
              rw (e, there, check_group)
                (kept.0, λ i q. rw (kept.1) (Lent-back s.pool got h there lent i q))
        ]
      ]

  check_groups-Kept :
      (at : ℕ → Instants) (valid : List (Option CheckLimitRequest)) (i : ℕ) (gs : List BatchGroup)
      (s : RateLimitHandler R) (responses : List CheckLimitResponse)
      → Kept s (check_groups R at valid i gs (s, responses)).0
  unfolding check_groups
  check_groups-Kept at valid i [] s responses = (refl, λ j q. refl)
  check_groups-Kept at valid i (g ∷ gs) s responses =
      let (t, responses') = check_group R (at i) valid g (s, responses) in
      let now = check_group-Kept (at i) valid g s responses in
      let later = check_groups-Kept at valid (suc i) gs t responses' in
      (later.0 ∙ now.0, λ j q. later.1 j q ∙ now.1 j q)

  serve_batch-Kept :
      (at : ℕ → Instants) (took : ℤ) (reqs : List (Option CheckLimitRequest)) (f : InFlight)
      (s : RateLimitHandler R)
      → (in_flight_of (serve_batch R at took reqs (begin f) s).0.inflight ≡ f)
        × SamePins s.pool (serve_batch R at took reqs (begin f) s).0.pool
  unfolding serve_batch
  serve_batch-Kept at took reqs f s =
      let valid = map valid_of reqs in
      let kept =
        check_groups-Kept at valid 0 (plan valid) (record s { inflight = some (begin f).0 })
          (map response_to reqs) in
      elim (Bool-cases f.closed) [
        | inl closed ↦
            rw (begin-turned_away f closed, serve_batch)
              (ap (λ b. b.0) (begin-turned_away f closed), λ i q. refl)
        | inr serving ↦
            rw (begin-goes f serving, serve_batch)
              (ap (λ g. end_request (in_flight_of g)) kept.0 ∙ end_request-begin f serving, kept.1)
      ]

  -- A call of CheckLimitBatch, whatever its requests and the failures of their limiters, leaves the
  -- tracker of requests in flight as it was, and every entry of the pool with as many open handles
  -- as before.
  pub check_limit_batch-Kept :
      (at : ℕ → Instants) (took : ℤ) (reqs : List (Option CheckLimitRequest))
      (s : RateLimitHandler R)
      → (in_flight_of (check_limit_batch R at took reqs s).0.inflight ≡ in_flight_of s.inflight)
        × SamePins s.pool (check_limit_batch R at took reqs s).0.pool
  unfolding check_limit_batch
  check_limit_batch-Kept at took [] s = (refl, λ i q. refl)
  check_limit_batch-Kept at took (r ∷ rs) s = elim (Bool-cases s.initialized) [
    | inr unset ↦ rw (unset, check_limit_batch) (refl, λ i q. refl)
    | inl ready ↦ simp (ready) (serve_batch-Kept at took (r ∷ rs) (in_flight_of s.inflight) s)
  ]
