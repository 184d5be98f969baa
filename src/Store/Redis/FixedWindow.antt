-- ===== src/Store/Redis/FixedWindow.antt =====
-- execFixedWindowLocked of redis_inmemory.go.
pub mod Laws
pub mod History
mod Examples
use distributed_rate_limiter.Base.{ℕ, Bool, Option, none, some}
use distributed_rate_limiter.Base.Int.{ℤ}
use distributed_rate_limiter.Base.Str.{Str}
use distributed_rate_limiter.Base.Assoc.{lookup, insert}
use distributed_rate_limiter.Core.Clock.{truncate}
use distributed_rate_limiter.Core.Models.{RuleParams, Decision, Result, ok, err}
use distributed_rate_limiter.Core.Window.{
  WindowCounter, roll, fits, charge, remaining_of, reset_of, retry_of,
}
use distributed_rate_limiter.Store.Redis.{InMemoryRedis, admit}

-- The counter of the key for the window of this instant.
abbrev pub counter_at : {F : Type 0} → InMemoryRedis F → ℕ → Str → ℤ → WindowCounter
counter_at r now key window = roll (truncate now window) (lookup key r.fixed_windows)

unfoldable pub answer : RuleParams → ℤ → ℕ → ℤ → WindowCounter → Decision
answer params window now cost counter =
    let allowed = fits params.limit cost counter in
    let reset = reset_of (truncate now window) window now in
    record {
      allowed = allowed;
      remaining = remaining_of params.limit (charge params.limit cost counter);
      limit = params.limit;
      reset_after = reset;
      retry_after = retry_of allowed reset;
    }

unfoldable pub exec_fixed_window :
    {F : Type 0} → InMemoryRedis F → ℕ → Str → RuleParams → ℤ → InMemoryRedis F × Result Decision
exec_fixed_window r now key params cost = elim (admit r params cost) [
  | err e ↦ (r, err e)
  | ok window ↦
      let counter = counter_at r now key window in
      (
        record r { fixed_windows = insert key (charge params.limit cost counter) r.fixed_windows },
        ok (answer params window now cost counter),
      )
]
