-- ===== src/Store/Redis/Pipeline.antt =====
-- InMemoryPipeline of redis_inmemory.go: operations that are queued, and run under one lock.
pub mod Laws
mod Examples
use distributed_rate_limiter.Base.{ℕ, suc, Option, none, some, List, [], ◌∷◌, ◌++◌}
use distributed_rate_limiter.Base.Int.{ℤ}
use distributed_rate_limiter.Base.Float.{Float64}
use distributed_rate_limiter.Base.Str.{Str}
use distributed_rate_limiter.Core.Models.{RuleParams, Decision, Result, ok, err}
use distributed_rate_limiter.Store.Redis.{InMemoryRedis}
use distributed_rate_limiter.Store.Redis.FixedWindow.{exec_fixed_window}
use distributed_rate_limiter.Store.Redis.SlidingWindow.{exec_sliding_window}
use distributed_rate_limiter.Store.Redis.TokenBucket.{exec_token_bucket}

pub data RedisOpKind : Type 0 where
  op_token_bucket op_fixed_window op_sliding_window : RedisOpKind

pub record RedisOp : Type 0 where
  pub kind : RedisOpKind
  pub key : Str
  pub params : RuleParams
  pub cost : ℤ

-- The three Exec methods of the pipeline append an operation.
unfoldable pub enqueue : RedisOpKind → Str → RuleParams → ℤ → List RedisOp → List RedisOp
enqueue kind key params cost ops =
    ops ++ record { kind = kind; key = key; params = params; cost = cost } ∷ []

-- One decision in front of those of the later operations.
unfoldable pub cons_decision :
    {S : Type 0} → Decision → S × Result (List Decision) → S × Result (List Decision)
cons_decision d (s, ok ds) = (s, ok (d ∷ ds))
cons_decision d (s, err e) = (s, err e)

unfoldable pub after_first :
    {S : Type 0}
    → S × Result Decision
    → (S → S × Result (List Decision))
    → S × Result (List Decision)
unfolding cons_decision
after_first (s, err e) rest = (s, err e)
after_first (s, ok d) rest = cons_decision d (rest s)

module _ (fl : Float64) where
  unfoldable pub exec_op :
      RedisOpKind
      → InMemoryRedis fl.F
      → ℕ
      → Str
      → RuleParams
      → ℤ
      → InMemoryRedis fl.F × Result Decision
  exec_op op_token_bucket = exec_token_bucket fl
  exec_op op_fixed_window = exec_fixed_window
  exec_op op_sliding_window = exec_sliding_window

  -- Exec: the operations in order. The first error ends the run: what ran before it stays done,
  -- and its decisions are dropped. The instants are those that each operation reads.
  unfoldable pub exec_pipeline :
      InMemoryRedis fl.F → (ℕ → ℕ) → ℕ → List RedisOp → InMemoryRedis fl.F × Result (List Decision)
  exec_pipeline r clock i [] = (r, ok [])
  exec_pipeline r clock i (op ∷ ops) =
      after_first (exec_op op.kind r (clock i) op.key op.params op.cost)
        (λ r'. exec_pipeline r' clock (suc i) ops)
