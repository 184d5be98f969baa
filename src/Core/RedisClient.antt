-- ===== src/Core/RedisClient.antt =====
-- redis.go: the interface to a redis. An implementation has a state of its own, in which it also
-- finds the time; a pipeline is the list of its queued operations, run by Exec. A call returns a
-- decision or an error, as the calls of the in-memory client do. An implementation that returns nil
-- for both, or a nil decision in a pipeline's answer, which the Go types allow, is not a RedisClient
-- of the model.
use distributed_rate_limiter.Base.{Bool, List}
use distributed_rate_limiter.Base.Int.{ℤ}
use distributed_rate_limiter.Base.Str.{Str}
use distributed_rate_limiter.Core.Models.{RuleParams, Decision, Result}

-- limiterAlgorithm of limiter.go.
pub data LimiterAlgorithm : Type 0 where
  limiter_token_bucket limiter_fixed_window limiter_sliding_window : LimiterAlgorithm

-- One queued operation: which of the three, and its arguments.
pub record Queued : Type 0 where
  pub algo : LimiterAlgorithm
  pub key : Str
  pub params : RuleParams
  pub cost : ℤ

pub record RedisClient : Type 1 where
  pub State : Type 0
  pub healthy : State → Bool
  pub exec_token_bucket : State → Str → RuleParams → ℤ → State × Result Decision
  pub exec_fixed_window : State → Str → RuleParams → ℤ → State × Result Decision
  pub exec_sliding_window : State → Str → RuleParams → ℤ → State × Result Decision
  pub exec_pipeline : State → List Queued → State × Result (List Decision)
