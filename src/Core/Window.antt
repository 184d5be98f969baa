-- ===== src/Core/Window.antt =====
-- The fixed-window counter, which the program writes twice: `fwState` of the in-memory redis
-- (store/inmemory/redis_inmemory.go) and `windowCounter` of the local fallback store
-- (core/fallback.go).
pub mod Laws
pub mod Budget
use distributed_rate_limiter.Base.{ℕ, Bool, true, false, Option, none, some, ◌==◌, if◌then◌else◌}
use distributed_rate_limiter.Base.Int.{ℤ, pos, add64, sub64, leb_ℤ, ltb_ℤ}
use distributed_rate_limiter.Core.Clock.{add_time, sub_time}
use distributed_rate_limiter.Core.Models.{Decision}

pub record WindowCounter : Type 0 where
  pub window_start : ℕ
  pub used : ℤ

-- The counter of the window that starts at `start`: a fresh one if the key has none, and the old
-- one set back to zero if it belongs to another window.
unfoldable pub roll : ℕ → Option WindowCounter → WindowCounter
roll start none = record { window_start = start; used = pos 0 }
roll start (some c) =
    if c.window_start == start then c else record { window_start = start; used = pos 0 }

-- Whether the cost fits; it is added to the counter only if it does.
unfoldable pub fits : ℤ → ℤ → WindowCounter → Bool
unfolding add64
fits limit cost c = leb_ℤ (add64 c.used cost) limit

unfoldable pub charge : ℤ → ℤ → WindowCounter → WindowCounter
unfolding fits
charge limit cost c = if fits limit cost c then record c { used = add64 c.used cost } else c

-- The fields of the answer, from the counter after the charge.
unfoldable pub remaining_of : ℤ → WindowCounter → ℤ
remaining_of limit c = let left = sub64 limit c.used in if ltb_ℤ left (pos 0) then pos 0 else left

unfoldable pub reset_of : ℕ → ℤ → ℕ → ℤ
reset_of start window now =
    let left = sub_time (add_time start window) now in if ltb_ℤ left (pos 0) then pos 0 else left

unfoldable pub retry_of : Bool → ℤ → ℤ
retry_of allowed reset = if allowed then pos 0 else reset
