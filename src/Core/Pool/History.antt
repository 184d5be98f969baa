-- ===== src/Core/Pool/History.antt =====
-- Any sequence of steps of a shard, from an empty one.
use distributed_rate_limiter.Base.{
  ℕ, ◌≡◌, refl, arith, true, false, Option, none, some, List, [], ◌∷◌, Option-cases, inl, inr,
}
use distributed_rate_limiter.Base.Assoc.{lookup}
use distributed_rate_limiter.Base.Int.{ℤ}
use distributed_rate_limiter.Base.Str.{Str}
use distributed_rate_limiter.Core.Limiter.{RedisLimiter}
use distributed_rate_limiter.Core.Lru.{has, new_lru_keys}
use distributed_rate_limiter.Core.Models.{Result}
use distributed_rate_limiter.Core.Pool.{
  LimiterPoolShard, acquire, release, cutover, waits, close_waited, sleep,
}
use distributed_rate_limiter.Core.Pool.Sharded.{new_shard}
use distributed_rate_limiter.Core.Pool.Counts.{pins, waiters}
use distributed_rate_limiter.Core.Pool.Invariant.{Inv}
use distributed_rate_limiter.Core.Pool.Operations.{
  acquire-Inv, release-Inv, cutover-Inv, close_waited-Inv, sleep-Inv,
}

pub data Step : Type 0 where
  acquires : Str → Result RedisLimiter → Step
  releases : ℕ → Step
  cuts_over : Str → Step
  sleeps closes late_closes : ℕ → Step

-- `none` where a waiting goroutine cannot go on yet.
unfoldable pub step : Step → LimiterPoolShard → Option LimiterPoolShard
step (acquires key made) s = some (acquire key made s).0
step (releases h) s = some (release h s)
step (cuts_over key) s = some (cutover key s)
step (sleeps p) s = sleep p s
step (closes p) s = close_waited false p s
step (late_closes p) s = close_waited true p s

abbrev pub then_run :
    (LimiterPoolShard → Option LimiterPoolShard) → Option LimiterPoolShard → Option LimiterPoolShard
then_run f none = none
then_run f (some s) = f s

unfoldable pub run : List Step → LimiterPoolShard → Option LimiterPoolShard
unfolding step
run [] s = some s
run (x ∷ xs) s = then_run (run xs) (step x s)

step-Inv : (x : Step) (s t : LimiterPoolShard) → Inv s → step x s ≡ some t → Inv t
unfolding step
step-Inv (acquires key made) s t v h =
    let e : (acquire key made s).0 ≡ t = ground (arith, h) in rw (← e) (acquire-Inv key made s v)
step-Inv (releases i) s t v h =
    let e : release i s ≡ t = ground (arith, h) in rw (← e) (release-Inv i s v)
step-Inv (cuts_over key) s t v h =
    let e : cutover key s ≡ t = ground (arith, h) in rw (← e) (cutover-Inv key s v)
step-Inv (sleeps p) s t v h = sleep-Inv p s t v h
step-Inv (closes p) s t v h = close_waited-Inv false p s t v h
step-Inv (late_closes p) s t v h = close_waited-Inv true p s t v h

pub run_from-Inv : (xs : List Step) (s t : LimiterPoolShard) → Inv s → run xs s ≡ some t → Inv t
unfolding run
run_from-Inv [] s t v h = let e : s ≡ t = ground (arith, h) in rw (← e) v
run_from-Inv (x ∷ xs) s t v h = elim (Option-cases (step x s)) [
  | inl e ↦ absurd (ground (arith, e, h))
  | inr (u, e) ↦ run_from-Inv xs u t (step-Inv x s u v e) (ground (arith, e, h))
]

pub new_shard-Inv : (max : ℤ) → Inv (new_shard max)
unfolding new_lru_keys lookup pins waits waiters has
new_shard-Inv max = record {
  list = record {
    same_keys = λ k. refl;
    order_distinct = tt;
    items_distinct = tt;
    same_length = refl;
  };
  few = omega arith;
  keyed = record {
    same_keys = λ k. refl;
    held = λ k p h. absurd (ground (arith, h));
    unique = λ k j p h g. absurd (ground (arith, h));
  };
  counts = record {
    fresh_cell = λ p h. refl;
    unpinned = λ p h. refl;
    counted = λ p e h. absurd (ground (arith, h));
    close_once = λ p e h. absurd (ground (arith, h));
    waited = λ p h. absurd (ground (arith, h));
    unqueued = λ p h. refl;
    queued = λ p e h. absurd (ground (arith, h));
    roused = λ p e h. absurd (ground (arith, h));
  };
}

-- After any acquisitions, releases, cutovers, sleeps and closings, in any order: the map has just the keys
-- of the LRU list, at most the maximum; its entries are active, and no two keys share one; each
-- count of references is the number of open handles; Close was called once on each closed limiter
-- and on no other; what waits to be closed is not active; just one goroutine waits for each entry
-- that quiesces, and none for another; and it sleeps only while the entry has references.
pub run-Inv :
    (max : ℤ) (xs : List Step) (t : LimiterPoolShard) → run xs (new_shard max) ≡ some t → Inv t
run-Inv max xs t h = run_from-Inv xs (new_shard max) t (new_shard-Inv max) h
