-- ===== src/Core/Limiter/Laws.antt =====
-- A limiter with a fallback always decides, and says by its error who has decided.
use distributed_rate_limiter.Base.{
  ℕ, suc, ◌≡◌, refl, true, false, arith, ◌==◌, ◌⊎◌, inl, inr, Bool-cases, Option, none, some, List,
  [], ◌∷◌, length, ap, Option-cases,
}
use distributed_rate_limiter.Base.Int.{ℤ}
use distributed_rate_limiter.Base.Str.{Str}
use distributed_rate_limiter.Core.Fallback.{FallbackLimiter, LocalStore}
use distributed_rate_limiter.Core.Fallback
use distributed_rate_limiter.Core.Mode.{OperatingMode, mode_emergency}
use distributed_rate_limiter.Core.Models.{
  Result-cases, Decision, Result, ok, err, Error, used_fallback,
}
use distributed_rate_limiter.Core.RedisClient.{RedisClient}
use distributed_rate_limiter.Core.Limiter.{
  RedisLimiter, Instants, World, is_emergency, mode_of, exec, fallback_decision, fallback_decisions,
  decide_all, ask_breaker, tell_failure, try_redis, allow, settle_batch, try_redis_batch,
  allow_batch, rest_costs,
}

module _ (R : RedisClient) (lim : RedisLimiter) where
  -- The redis was asked and has answered: its own decision, no error, the local counters as before.
  abbrev pub FromRedis : World R → Str → ℤ → World R × Option Decision × Option Error → Type 0
  FromRedis w key cost r =
      (d : Decision) × ((exec R lim w.redis key cost).1 ≡ ok d)
      × (r.0.redis ≡ (exec R lim w.redis key cost).0)
      × (r.0.local ≡ w.local)
      × (r.1 ≡ some d)
      × (r.2 ≡ none)

  -- The fallback has decided, in the mode of its controller and from the local counters, which are
  -- those that it leaves, and the decision is marked as such.
  abbrev pub FromFallback :
      World R
      → Instants
      → Str
      → ℤ
      → FallbackLimiter
      → World R × Option Decision × Option Error
      → Type 0
  FromFallback w t key cost fl r =
      let (local, d) =
        Fallback.allow fl (mode_of w.fallback_mode) w.local (t.at_fallback 0) key lim.params cost in
      (r.0.local ≡ local) × (r.1 ≡ some d) × (r.2 ≡ some used_fallback)

  -- The redis is asked: there is no emergency, and the breaker lets the call through.
  abbrev pub Asks : World R → Instants → Type 0
  Asks w t = (is_emergency w.mode ≡ false) × ((ask_breaker R w.breaker t.at_allow).1 ≡ true)

  -- Who decides: the redis where it is asked and answers; the fallback where it is asked and fails;
  -- and the fallback, with the redis left alone, where it is not asked.
  abbrev pub Outcome :
      World R
      → Instants
      → Str
      → ℤ
      → FallbackLimiter
      → World R × Option Decision × Option Error
      → Type 0
  Outcome w t key cost fl r =
      (Asks w t × FromRedis w key cost r)
      ⊎ ((Asks w t
            × ((e : Error) × ((exec R lim w.redis key cost).1 ≡ err e))
            × (r.0.redis ≡ (exec R lim w.redis key cost).0)
            × FromFallback w t key cost fl r)
          ⊎ (((is_emergency w.mode ≡ true) ⊎ ((ask_breaker R w.breaker t.at_allow).1 ≡ false))
              × (r.0.redis ≡ w.redis)
              × FromFallback w t key cost fl r))

  fallback_decision-From :
      (w : World R) (t : Instants) (key : Str) (cost : ℤ) (fl : FallbackLimiter)
      → w.fallback ≡ some fl
      → FromFallback w t key cost fl (fallback_decision R lim w t key cost)
        × ((fallback_decision R lim w t key cost).0.redis ≡ w.redis)
  unfolding fallback_decision
  fallback_decision-From w t key cost fl h = rw (h, fallback_decision) ((refl, refl, refl), refl)

  try_redis-From :
      (w : World R) (t : Instants) (key : Str) (cost : ℤ) (fl : FallbackLimiter)
      → w.fallback ≡ some fl
      → FromRedis w key cost (try_redis R lim w t key cost)
        ⊎ (((e : Error) × ((exec R lim w.redis key cost).1 ≡ err e))
            × ((try_redis R lim w t key cost).0.redis ≡ (exec R lim w.redis key cost).0)
            × FromFallback w t key cost fl (try_redis R lim w t key cost))
  unfolding try_redis
  try_redis-From w t key cost fl h = elim (Result-cases (exec R lim w.redis key cost).1) [
    | inr (d, e) ↦ rw (e, try_redis) (inl (d, refl, refl, refl, refl, refl))
    | inl (x, e) ↦
        let failed = record w {
          redis = (exec R lim w.redis key cost).0;
          breaker = tell_failure R w.breaker t;
        } in
        let (f, kept) = fallback_decision-From failed t key cost fl h in
        rw (e, try_redis) (inr ((x, refl), kept, f))
  ]

  pub allow-decides :
      (w : World R) (t : Instants) (key : Str) (cost : ℤ) (fl : FallbackLimiter)
      → w.fallback ≡ some fl
      → Outcome w t key cost fl (allow R lim w t key cost)
  unfolding allow
  allow-decides w t key cost fl h = elim (Bool-cases (is_emergency w.mode)) [
    | inl e ↦
        let (f, kept) = fallback_decision-From w t key cost fl h in
        rw e (inr (inr (inl refl, kept, f)))
    | inr e ↦
        let asked = record w { breaker = (ask_breaker R w.breaker t.at_allow).0 } in
        elim (Bool-cases (ask_breaker R w.breaker t.at_allow).1) [
          | inl go ↦
              rw (e, go)
                (elim (try_redis-From asked t key cost fl h) [
                  | inl own ↦ inl ((refl, refl), own)
                  | inr (failed, redis, f) ↦ inr (inl ((refl, refl), failed, redis, f))
                ])
          | inr stop ↦
              let (f, kept) = fallback_decision-From asked t key cost fl h in
              rw (e, stop) (inr (inr (inr refl, kept, f)))
        ]
  ]

  -- In an emergency a limiter that has a fallback touches neither the redis nor the breaker, and
  -- decides as the fallback does with its emergency cap.
  pub allow-emergency :
      (w : World R) (t : Instants) (key : Str) (cost : ℤ) (fl : FallbackLimiter)
      → w.fallback ≡ some fl
      → w.mode ≡ some mode_emergency
      → w.fallback_mode ≡ some mode_emergency
      → ((allow R lim w t key cost).0.redis ≡ w.redis)
        × ((allow R lim w t key cost).0.breaker ≡ w.breaker)
        × ((allow R lim w t key cost).1
            ≡ some
                (Fallback.allow fl mode_emergency w.local (t.at_fallback 0) key lim.params cost).1)
  unfolding allow fallback_decision
  allow-emergency w t key cost fl h e own =
      rw (e, h, fallback_decision)
        (
          refl,
          refl,
          ap
              (λ m.
                some
                  (Fallback.allow fl (mode_of m) w.local (t.at_fallback 0) key lim.params cost).1)
              own,
        )

  length-decide_all :
      (fl : FallbackLimiter) (mode : OperatingMode) (at : ℕ → ℕ) (keys : List Str) (costs : List ℤ)
      (i : ℕ) (local : LocalStore)
      → length (decide_all R fl mode local lim.params at i keys costs).1 ≡ length keys
  unfolding decide_all
  length-decide_all fl mode at [] costs i local = refl
  length-decide_all fl mode at (key ∷ keys) costs i local =
      ap suc (length-decide_all fl mode at keys (rest_costs costs) (suc i) _)

  -- The answer to a batch: one decision for each key, and no error but the marker.
  abbrev pub Complete : List Str → World R × Option (List Decision) × Option Error → Type 0
  Complete keys r =
      (ds : List Decision) × (r.1 ≡ some ds)
      × (length ds ≡ length keys)
      × ((r.2 ≡ none) ⊎ (r.2 ≡ some used_fallback))

  fallback_decisions-Complete :
      (w : World R) (t : Instants) (keys : List Str) (costs : List ℤ) (fl : FallbackLimiter)
      → w.fallback ≡ some fl
      → Complete keys (fallback_decisions R lim w t keys costs)
  unfolding fallback_decisions
  fallback_decisions-Complete w t keys costs fl h =
      rw (h, fallback_decisions)
        (_, refl, length-decide_all fl _ t.at_fallback keys costs 0 w.local, inr refl)

  settle_batch-Complete :
      (w : World R) (t : Instants) (keys : List Str) (costs : List ℤ) (fl : FallbackLimiter)
      (answer : Result (List Decision))
      → w.fallback ≡ some fl
      → Complete keys (settle_batch R lim w t keys costs answer)
  unfolding settle_batch
  settle_batch-Complete w t keys costs fl (err e) h =
      fallback_decisions-Complete _ t keys costs fl h
  settle_batch-Complete w t keys costs fl (ok ds) h = elim (Bool-cases (length ds == length keys)) [
    | inl e ↦ rw e (ds, refl, ground arith, inl refl)
    | inr e ↦ rw e (fallback_decisions-Complete _ t keys costs fl h)
  ]

  try_redis_batch-Complete :
      (w : World R) (t : Instants) (keys : List Str) (costs : List ℤ) (fl : FallbackLimiter)
      → w.fallback ≡ some fl
      → Complete keys (try_redis_batch R lim w t keys costs)
  unfolding try_redis_batch
  try_redis_batch-Complete w t keys costs fl h = elim (Option-cases w.redis) [
    | inl e ↦ rw (e, try_redis_batch) (fallback_decisions-Complete w t keys costs fl h)
    | inr (s, e) ↦ rw (e, try_redis_batch) (settle_batch-Complete _ t keys costs fl _ h)
  ]

  -- A limiter that has a fallback answers every key of a batch, also where the redis fails on the
  -- batch or answers another number of operations.
  pub allow_batch-Complete :
      (w : World R) (t : Instants) (keys : List Str) (costs : List ℤ) (fl : FallbackLimiter)
      → w.fallback ≡ some fl
      → Complete keys (allow_batch R lim w t keys costs)
  unfolding allow_batch
  allow_batch-Complete w t keys costs fl h = elim (Bool-cases (is_emergency w.mode)) [
    | inl e ↦ rw e (fallback_decisions-Complete w t keys costs fl h)
    | inr e ↦
        let asked = record w { breaker = (ask_breaker R w.breaker t.at_allow).0 } in
        elim (Bool-cases (ask_breaker R w.breaker t.at_allow).1) [
          | inl go ↦ rw (e, go) (try_redis_batch-Complete asked t keys costs fl h)
          | inr stop ↦ rw (e, stop) (fallback_decisions-Complete asked t keys costs fl h)
        ]
  ]
