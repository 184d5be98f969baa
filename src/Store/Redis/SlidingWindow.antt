-- ===== src/Store/Redis/SlidingWindow.antt =====
-- execSlidingWindowLocked of redis_inmemory.go.
pub mod Laws
pub mod History
mod Examples
use distributed_rate_limiter.Base.{
  ℕ, ◌+◌, Bool, true, false, Option, none, some, List, [], ◌∷◌, ◌++◌, ◌==◌, ltb, leb, if◌then◌else◌,
}
use distributed_rate_limiter.Base.Int.{ℤ, pos, pos_part, add64, sub64, leb_ℤ, ltb_ℤ, eqb_ℤ}
use distributed_rate_limiter.Base.Str.{Str}
use distributed_rate_limiter.Base.Assoc.{lookup, insert}
use distributed_rate_limiter.Core.Clock.{add_time, sub_time}
use distributed_rate_limiter.Core.Models.{RuleParams, Decision, Result, ok, err}
use distributed_rate_limiter.Store.Redis.{InMemoryRedis, SwEvent, SwState, admit}

-- The events not before `now - window`. The subtraction is moved to the other side, so that an
-- instant within the first window after the zero time needs no negative time.
unfoldable pub live : ℕ → ℤ → List SwEvent → List SwEvent
live now window [] = []
live now window (e ∷ es) =
    let rest = live now window es in if leb now (add_time e.t window) then e ∷ rest else rest

-- The loop that adds up the costs.
unfoldable pub total_cost : ℤ → List SwEvent → ℤ
total_cost acc [] = acc
total_cost acc (e ∷ es) = total_cost (add64 acc e.cost) es

-- The events that the key keeps: none if the window's length has changed.
unfoldable pub kept : ℤ → Option SwState → List SwEvent
kept window none = []
kept window (some s) = if eqb_ℤ s.window window then s.events else []

unfoldable pub sliding_fits : ℤ → ℤ → List SwEvent → Bool
sliding_fits limit cost events = leb_ℤ (add64 (total_cost (pos 0) events) cost) limit

-- The events after the request, the old ones being those in the window.
unfoldable pub sliding_charge : ℤ → ℤ → ℕ → List SwEvent → List SwEvent
unfolding sliding_fits
sliding_charge limit cost now events =
    if sliding_fits limit cost events
    then events ++ record { t = now; cost = cost } ∷ []
    else events

-- The wait until the oldest event leaves the window.
unfoldable pub sliding_retry : Bool → ℤ → ℕ → List SwEvent → ℤ
sliding_retry true window now events = pos 0
sliding_retry false window now [] = pos 0
sliding_retry false window now (e ∷ es) =
    let left = sub_time (add_time e.t window) now in if ltb_ℤ left (pos 0) then pos 0 else left

unfoldable pub exec_sliding_window :
    {F : Type 0} → InMemoryRedis F → ℕ → Str → RuleParams → ℤ → InMemoryRedis F × Result Decision
exec_sliding_window r now key params cost = elim (admit r params cost) [
  | err e ↦ (r, err e)
  | ok window ↦
      let events = live now window (kept window (lookup key r.sliding_windows)) in
      let total = total_cost (pos 0) events in
      let allowed = sliding_fits params.limit cost events in
      let after = sliding_charge params.limit cost now events in
      let left = sub64 params.limit (if allowed then add64 total cost else total) in
      (
        record r {
          sliding_windows =
              insert key (record { window = window; events = after }) r.sliding_windows;
        },
        ok (record {
          allowed = allowed;
          remaining = if ltb_ℤ left (pos 0) then pos 0 else left;
          limit = params.limit;
          reset_after = window;
          retry_after = sliding_retry allowed window now after;
        }),
      )
]
