-- ===== src/Store/Redis/FixedWindow/Examples.antt =====
-- Runs of the fixed window, and the theorems at concrete requests.
use distributed_rate_limiter.Base.{ℕ, ◌≤◌, ◌≡◌, refl, true, arith, List, [], ◌∷◌}
use distributed_rate_limiter.Base.Int.{pos, ◌<ℤ◌, add64, sub64, max_int64}
use distributed_rate_limiter.Base.Str.{Str, bytes, str_eq}
use distributed_rate_limiter.Base.Assoc.{lookup, insert}
use distributed_rate_limiter.Core.Clock.{truncate, sub_time, add_time}
use distributed_rate_limiter.Core.Models.{RuleParams}
use distributed_rate_limiter.Core.Window.{roll, fits, charge, remaining_of, reset_of, retry_of}
use distributed_rate_limiter.Core.Window.Laws.{overflow-fits}
use distributed_rate_limiter.Store.Redis.{admit, set_healthy, new_in_memory_redis}
use distributed_rate_limiter.Store.Redis.FixedWindow.{exec_fixed_window, answer}
use distributed_rate_limiter.Store.Redis.FixedWindow.Laws.{was_allowed}
use distributed_rate_limiter.Store.Redis.FixedWindow.History.{
  Call, serve, grant, granted, granted-le-limit,
}

program : Unit {0}
unfolding lookup insert str_eq add64 sub64 truncate sub_time add_time roll charge remaining_of
    reset_of retry_of admit set_healthy new_in_memory_redis exec_fixed_window answer was_allowed
    serve grant granted
program = tt

abbrev ten_per_second : RuleParams
ten_per_second = record { limit = pos 10; window = pos 1000; burst = pos 0; version = pos 1 }

abbrev key : Str
key = bytes "t"

abbrev call : ℕ → ℕ → Call
call now cost = record { up = true; now = now; key = key; cost = pos cost }

abbrev calls : List Call
calls = call 5100 6 ∷ call 5200 6 ∷ call 5300 4 ∷ call 6000 10 ∷ []

-- The second call is refused; the last one falls into the next window.
granted-calls : granted (λ _. ten_per_second) key 5000 (new_in_memory_redis {F = ℕ}) calls ≡ 10
unfolding program
granted-calls = refl

granted-le-limit_example :
    granted (λ _. ten_per_second) key 5000 (new_in_memory_redis {F = ℕ}) calls ≤ 10
granted-le-limit_example =
    granted-le-limit ℕ (λ _. ten_per_second) key 5000 5000 calls (omega arith)

overflow-fits_example :
    (fits (pos 10) (pos max_int64) (record { window_start = 5000; used = pos 1 }) ≡ true)
    × ((charge (pos 10) (pos max_int64) (record { window_start = 5000; used = pos 1 })).used
        <ℤ pos 0)
overflow-fits_example =
    overflow-fits (pos 10) (pos max_int64) (record { window_start = 5000; used = pos 1 })
      (omega arith) (omega arith) (omega arith) (omega arith) (omega arith) (omega arith)
