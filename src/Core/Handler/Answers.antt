-- ===== src/Core/Handler/Answers.antt =====
-- CheckLimit: the answer in each case.
use distributed_rate_limiter.Base.{
  ℕ, ◌≡◌, refl, arith, true, false, Option, none, some, Option-cases, ◌⊎◌, inl, inr,
}
use distributed_rate_limiter.Core.Drain.{InFlight, begin}
use distributed_rate_limiter.Core.Fallback.{FallbackLimiter}
use distributed_rate_limiter.Core.Keys.{build_key}
use distributed_rate_limiter.Core.Limiter.{RedisLimiter, allow}
use distributed_rate_limiter.Core.Limiter.Laws.{allow-decides}
use distributed_rate_limiter.Core.Models.{
  CheckLimitRequest, CheckLimitResponse, Decision, Result, ok, err, Result-cases, Error,
  code_rule_not_found, code_limiter_unavailable, used_fallback,
}
use distributed_rate_limiter.Core.Pool.Sharded.{LimiterPool, acquire_limiter}
use distributed_rate_limiter.Core.RedisClient.{RedisClient}
use distributed_rate_limiter.Core.RuleCache
use distributed_rate_limiter.Core.Handler.{
  RateLimitHandler, Circumstances, refused, decided, invalid, respond, in_flight_of, limiter_at,
  coalesced, use_handle, decide, serve, check_limit,
}
use distributed_rate_limiter.Core.Handler.Lent.{Lent, acquire_limiter-Lent}

-- The two answers with a decision and no error but the marker.
respond-decided :
    (d : Decision) (e : Option Error)
    → (e ≡ none) ⊎ (e ≡ some used_fallback)
    → (respond (some d, e)).0 ≡ decided d
unfolding respond
respond-decided d e (inl h) = rw (h) refl
respond-decided d e (inr h) = rw (h) refl

pub begin-goes : (f : InFlight) → f.closed ≡ false → begin f ≡ ((begin f).0, true)
unfolding begin
begin-goes f h = rw (h) refl

Lent-limiter :
    (pool : LimiterPool) (got : LimiterPool × Result (ℕ × ℕ)) (h : ℕ × ℕ)
    → got.1 ≡ ok h
    → Lent pool got
    → (lim : RedisLimiter) × (limiter_at h got.0 ≡ some lim)
Lent-limiter pool (after, err e) h there l = ground (arith, there)
Lent-limiter pool (after, ok g) h there l =
    let same : g ≡ h = ground (arith, there) in rw (← same) (l.0)

module _ (R : RedisClient) (c : Circumstances R) (req : CheckLimitRequest) where
  -- The decision of the rule's own limiter.
  abbrev pub ByLimiter : RateLimitHandler R → CheckLimitResponse → Type 0
  ByLimiter s resp =
      (h : ℕ × ℕ) × (lim : RedisLimiter) × (d : Decision) × ((acquire_limiter s.rules req.tenant_id
          req.resource s.pool).1
        ≡ ok h)
      × (limiter_at h (acquire_limiter s.rules req.tenant_id req.resource s.pool).0 ≡ some lim)
      × ((allow R lim s.world c.at (build_key req.tenant_id req.user_id req.resource) req.cost).1
          ≡ some d)
      × (resp ≡ decided d)

  -- What a response says: there is no rule, or no limiter, or the limiter has decided.
  abbrev pub Answered : RateLimitHandler R → CheckLimitResponse → Type 0
  Answered s resp =
      ((RuleCache.get req.tenant_id req.resource s.rules ≡ none)
        × (resp ≡ refused code_rule_not_found))
      ⊎ ((((e : Error) × ((acquire_limiter s.rules req.tenant_id req.resource s.pool).1 ≡ err e))
            × (resp ≡ refused code_limiter_unavailable))
          ⊎ ByLimiter s resp)

  use_handle-decides :
      (h : ℕ × ℕ) (lim : RedisLimiter) (s : RateLimitHandler R) (fl : FallbackLimiter)
      → limiter_at h s.pool ≡ some lim
      → c.joined ≡ none
      → s.world.fallback ≡ some fl
      → (d : Decision) × ((allow R lim s.world c.at
            (build_key req.tenant_id req.user_id req.resource)
            req.cost).1
          ≡ some d)
        × ((use_handle R c req h s).1 ≡ decided d)
  unfolding use_handle coalesced
  use_handle-decides h lim s fl at alone has_fallback =
      let key = build_key req.tenant_id req.user_id req.resource in
      elim (allow-decides R lim s.world c.at key req.cost fl has_fallback) [
        | inl (calm, x) ↦
            (x.0, x.4, rw (at, alone, x.4, use_handle) (respond-decided x.0 _ (inl x.5)))
        | inr (inl (calm, failed, redis, x)) ↦
            (_, x.1, rw (at, alone, x.1, use_handle) (respond-decided _ _ (inr x.2)))
        | inr (inr (refused_it, redis, x)) ↦
            (_, x.1, rw (at, alone, x.1, use_handle) (respond-decided _ _ (inr x.2)))
      ]

  decide-Answered :
      (s : RateLimitHandler R) (fl : FallbackLimiter)
      → c.joined ≡ none
      → s.world.fallback ≡ some fl
      → Answered s (decide R c req s).1
  unfolding decide
  decide-Answered s fl alone has_fallback =
      let got = acquire_limiter s.rules req.tenant_id req.resource s.pool in
      elim (Option-cases (RuleCache.get req.tenant_id req.resource s.rules)) [
        | inl e ↦ rw (e, decide) (inl (refl, refl))
        | inr (rule, e) ↦ elim (Result-cases got.1) [
          | inl (x, failed) ↦ rw (e, failed, decide) (inr (inl ((x, refl), refl)))
          | inr (h, there) ↦
              let lent =
                Lent-limiter s.pool got h there
                  (acquire_limiter-Lent s.rules req.tenant_id req.resource s.pool) in
              let (d, by, resp) =
                use_handle-decides h lent.0 (record s { pool = got.0 }) fl lent.1 alone
                  has_fallback in
              rw (e, there, decide) (inr (inr (h, lent.0, d, refl, lent.1, by, resp)))
        ]
      ]

  check_limit-serves :
      (s : RateLimitHandler R)
      → s.initialized ≡ true
      → (in_flight_of s.inflight).closed ≡ false
      → invalid req ≡ none
      → (check_limit R c (some req) s).1
        ≡ ok (decide R c req (record s { inflight = some (begin (in_flight_of s.inflight)).0 })).1
  unfolding check_limit serve
  check_limit-serves s ready serving valid =
      rw (valid, check_limit)
        (rw (ready) (rw (begin-goes (in_flight_of s.inflight) serving, serve) refl))

  -- A valid request, to a handler that is set up, does not drain and has a fallback, gets a response
  -- and no error, if it joins no other call. The response says that there is no rule for the request,
  -- or that the pool has no limiter for it, or it is the decision of the limiter that the pool gives
  -- for the rule: the limiter's own failures are never passed on.
  pub check_limit-Answered :
      (s : RateLimitHandler R) (fl : FallbackLimiter)
      → s.initialized ≡ true
      → (in_flight_of s.inflight).closed ≡ false
      → invalid req ≡ none
      → c.joined ≡ none
      → s.world.fallback ≡ some fl
      → (resp : CheckLimitResponse) × ((check_limit R c (some req) s).1 ≡ ok resp) × Answered s resp
  check_limit-Answered s fl ready serving valid alone has_fallback =
      let begun = record s { inflight = some (begin (in_flight_of s.inflight)).0 } in
      (
        (decide R c req begun).1,
        check_limit-serves s ready serving valid,
        decide-Answered begun fl alone has_fallback,
      )
