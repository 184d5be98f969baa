-- ===== src/Store/Redis/SlidingWindow/Examples.antt =====
-- Runs of the sliding window, and the theorem at concrete requests.
use distributed_rate_limiter.Base.{ℕ, ◌≤◌, ◌≡◌, refl, true, arith, List, [], ◌∷◌}
use distributed_rate_limiter.Base.Int.{pos, add64, sub64}
use distributed_rate_limiter.Base.Str.{Str, bytes, str_eq}
use distributed_rate_limiter.Base.Assoc.{lookup, insert}
use distributed_rate_limiter.Core.Clock.{sub_time, add_time}
use distributed_rate_limiter.Core.Models.{RuleParams}
use distributed_rate_limiter.Store.Redis.{admit, set_healthy, new_in_memory_redis}
use distributed_rate_limiter.Store.Redis.FixedWindow.Laws.{was_allowed}
use distributed_rate_limiter.Store.Redis.FixedWindow.History.{Call}
use distributed_rate_limiter.Store.Redis.SlidingWindow.{
  live, total_cost, kept, sliding_charge, sliding_retry, exec_sliding_window,
}
use distributed_rate_limiter.Store.Redis.SlidingWindow.History.{
  serve, grant, granted, granted-le-limit_sliding,
}

abbrev ten_per_second : RuleParams
ten_per_second = record { limit = pos 10; window = pos 1000; burst = pos 0; version = pos 1 }

abbrev key : Str
key = bytes "t"

abbrev call : ℕ → ℕ → Call
call now cost = record { up = true; now = now; key = key; cost = pos cost }

abbrev calls : List Call
calls = call 5100 6 ∷ call 5200 6 ∷ call 5300 4 ∷ call 6050 10 ∷ call 6150 5 ∷ []

-- Only the first and the third call fit; the fifth comes after the first has left the window.
granted-calls : granted (λ _. ten_per_second) key 6150 (new_in_memory_redis {F = ℕ}) calls ≡ 9
unfolding lookup insert str_eq add64 sub64 sub_time add_time admit set_healthy new_in_memory_redis
    was_allowed live total_cost kept sliding_charge sliding_retry exec_sliding_window serve grant
    granted
granted-calls = refl

granted-le-limit_sliding_example :
    granted (λ _. ten_per_second) key 6150 (new_in_memory_redis {F = ℕ}) calls ≤ 10
granted-le-limit_sliding_example =
    granted-le-limit_sliding ℕ (λ _. ten_per_second) key 6150 5000 calls (omega arith) (omega arith)
