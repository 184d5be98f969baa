-- ===== src/Store/Redis/Pipeline/Examples.antt =====
-- A pipeline at concrete operations, over whole numbers in place of float64.
use distributed_rate_limiter.Base.{ℕ, ◌≡◌, refl, Bool, true, false, [], ◌∷◌}
use distributed_rate_limiter.Base.Int.{pos, add64, sub64}
use distributed_rate_limiter.Base.Str.{bytes, str_eq}
use distributed_rate_limiter.Base.Assoc.{lookup, insert}
use distributed_rate_limiter.Base.Float.Whole.{whole}
use distributed_rate_limiter.Core.Clock.{truncate, sub_time, add_time}
use distributed_rate_limiter.Core.Models.{RuleParams, Decision, ok}
use distributed_rate_limiter.Core.Window.{roll, fits, charge, remaining_of, reset_of, retry_of}
use distributed_rate_limiter.Store.Redis.{admit, new_in_memory_redis}
use distributed_rate_limiter.Store.Redis.FixedWindow.{exec_fixed_window, answer}
use distributed_rate_limiter.Store.Redis.Pipeline.{
  RedisOp, op_fixed_window, cons_decision, after_first, exec_op, exec_pipeline,
}

abbrev params : RuleParams
params = record { limit = pos 10; window = pos 1000; burst = pos 0; version = pos 1 }

abbrev op : ℕ → RedisOp
op cost = record { kind = op_fixed_window; key = bytes "t"; params = params; cost = pos cost }

abbrev decision : Bool → ℕ → ℕ → Decision
decision allowed remaining retry = record {
  allowed = allowed;
  remaining = pos remaining;
  limit = pos 10;
  reset_after = pos 900;
  retry_after = pos retry;
}

-- The second operation does not fit the limit.
second_refused :
    (exec_pipeline whole new_in_memory_redis (λ _. 5100) 0 (op 6 ∷ op 7 ∷ [])).1
    ≡ ok (decision true 4 0 ∷ decision false 4 900 ∷ [])
unfolding lookup insert str_eq add64 sub64 truncate sub_time add_time roll fits charge remaining_of
    reset_of retry_of admit new_in_memory_redis exec_fixed_window answer cons_decision after_first
    exec_op exec_pipeline
second_refused = refl
