-- ===== src/Store/Redis/Pipeline/Laws.antt =====
-- A pipeline answers every queued operation or none.
use distributed_rate_limiter.Base.{ℕ, suc, ◌≡◌, refl, arith, List, [], ◌∷◌, length}
use distributed_rate_limiter.Base.Float.{Float64}
use distributed_rate_limiter.Core.Models.{Decision, Result, ok, err}
use distributed_rate_limiter.Store.Redis.{InMemoryRedis}
use distributed_rate_limiter.Store.Redis.Pipeline.{
  RedisOp, cons_decision, after_first, exec_op, exec_pipeline,
}

length-cons_decision :
    {S : Type 0} (d : Decision) (x : S × Result (List Decision)) (ds : List Decision) (n : ℕ)
    → ((es : List Decision) → x.1 ≡ ok es → length es ≡ n)
    → (cons_decision d x).1 ≡ ok ds
    → length ds ≡ suc n
unfolding cons_decision
length-cons_decision d (s, ok es) ds n all h = ground (arith, all es refl)
length-cons_decision d (s, err e) ds n all h = cc

length-after_first :
    {S : Type 0} (x : S × Result Decision) (rest : S → S × Result (List Decision))
    (ds : List Decision) (n : ℕ)
    → ((s : S) (es : List Decision) → (rest s).1 ≡ ok es → length es ≡ n)
    → (after_first x rest).1 ≡ ok ds
    → length ds ≡ suc n
unfolding after_first
length-after_first (s, err e) rest ds n all h = cc
length-after_first (s, ok d) rest ds n all h = length-cons_decision d (rest s) ds n (all s) h

-- A run that succeeds has one decision for each operation.
pub length-exec_pipeline :
    (fl : Float64) (clock : ℕ → ℕ) (ops : List RedisOp) (i : ℕ) (r : InMemoryRedis fl.F)
    (ds : List Decision)
    → (exec_pipeline fl r clock i ops).1 ≡ ok ds
    → length ds ≡ length ops
unfolding exec_pipeline
length-exec_pipeline fl clock [] i r ds h = ground arith
length-exec_pipeline fl clock (op ∷ ops) i r ds h =
    length-after_first (exec_op fl op.kind r (clock i) op.key op.params op.cost) _ ds (length ops)
      (λ s es k. length-exec_pipeline fl clock ops (suc i) s es k) h
