-- ===== src/Store/Redis/FixedWindow/Laws.antt =====
-- One fixed-window request: the guards, the answer, and the counter that it leaves.
use distributed_rate_limiter.Base.{
  ℕ, ◌+◌, ◌-◌, ◌≤◌, ◌<◌, ◌≡◌, refl, Bool, true, false, arith, if◌then◌else◌,
}
use distributed_rate_limiter.Base.Int.{ℤ, pos, pos_part, ◌<ℤ◌, max_int64, ltb_ℤ}
use distributed_rate_limiter.Base.Str.{Str}
use distributed_rate_limiter.Base.Assoc.{insert}
use distributed_rate_limiter.Core.Clock.{second, truncate, window_bounds}
use distributed_rate_limiter.Core.Models.{RuleParams, Decision, Result, ok, err, Error}
use distributed_rate_limiter.Core.Window.{WindowCounter, fits, charge, retry_of}
use distributed_rate_limiter.Core.Window.Laws.{
  Within, charge_used, charge-Within, fits_exact, remaining_of_lem, reset_of_lem,
}
use distributed_rate_limiter.Store.Redis.{InMemoryRedis, admit}
use distributed_rate_limiter.Store.Redis.FixedWindow.{exec_fixed_window, counter_at, answer}

unfoldable pub was_allowed : Result Decision → Bool
was_allowed (ok d) = d.allowed
was_allowed (err e) = false

module _ {F : Type 0} (r : InMemoryRedis F) (now : ℕ) (key : Str) (params : RuleParams)
    (cost : ℤ) where
  pub exec_refused :
      (e : Error)
      → admit r params cost ≡ err e
      → exec_fixed_window r now key params cost ≡ (r, err e)
  unfolding exec_fixed_window
  exec_refused e h = rw (h, exec_fixed_window)

  pub exec_admitted :
      (window : ℤ)
      → admit r params cost ≡ ok window
      → ((exec_fixed_window r now key params cost).0 ≡ record r {
        fixed_windows =
            insert key (charge params.limit cost (counter_at r now key window)) r.fixed_windows;
      })
        × (was_allowed (exec_fixed_window r now key params cost).1
            ≡ fits params.limit cost (counter_at r now key window))
  unfolding exec_fixed_window was_allowed answer
  exec_admitted window h = (rw (h, exec_fixed_window), rw (h, exec_fixed_window))

pub admit_ok :
    {F : Type 0} (r : InMemoryRedis F) (params : RuleParams) (cost : ℤ)
    → r.healthy ≡ true
    → pos 0 <ℤ cost
    → pos 0 <ℤ params.limit
    → pos 0 <ℤ params.window
    → admit r params cost ≡ ok params.window
unfolding admit
admit_ok r params cost h p q w = ground arith

-- The answer to a request that passes the guards, on a counter that lies within the limit.
pub record Answers (params : RuleParams) (now : ℕ) (cost : ℤ) (used : ℕ) (d : Decision)
    : Type 0 where
  pub allowed_fits : d.allowed ≡ true → used + pos_part cost ≤ pos_part params.limit
  pub denied_exceeds : d.allowed ≡ false → pos_part params.limit < used + pos_part cost
  pub remaining_left :
      d.remaining ≡ pos (pos_part params.limit - (used + (if d.allowed then pos_part cost else 0)))
  pub limit_eq : d.limit ≡ params.limit
  pub reset_eq : d.reset_after ≡ pos (truncate now params.window + pos_part params.window - now)
  pub reset_pos : pos 0 <ℤ d.reset_after
  pub retry_eq : d.retry_after ≡ (if d.allowed then pos 0 else d.reset_after)

module _ (params : RuleParams) (now : ℕ) (cost : ℤ) (c : WindowCounter) (cost_pos : pos 0 <ℤ cost)
    (limit_pos : pos 0 <ℤ params.limit) (window_pos : pos 0 <ℤ params.window)
    (window_fits : pos_part params.window ≤ max_int64)
    (no_overflow : pos_part params.limit + pos_part cost ≤ max_int64)
    (w : Within params.limit c) where
  answer-Answers :
      Answers params now cost (pos_part c.used) (answer params params.window now cost c)
  unfolding answer retry_of
  answer-Answers = record {
    allowed_fits = (fits_exact params.limit cost c w cost_pos no_overflow).0;
    denied_exceeds = (fits_exact params.limit cost c w cost_pos no_overflow).1;
    remaining_left = ground (
      arith,
      remaining_of_lem params.limit (charge params.limit cost c),
      charge-Within params.limit cost c w cost_pos no_overflow,
      charge_used params.limit cost c w cost_pos no_overflow,
    );
    limit_eq = refl;
    reset_eq = reset_of_lem now params.window window_pos window_fits;
    reset_pos = ground (
      arith,
      reset_of_lem now params.window window_pos window_fits,
      window_bounds now params.window window_pos,
    );
    retry_eq = refl;
  }

module _ {F : Type 0} (r : InMemoryRedis F) (now : ℕ) (key : Str) (params : RuleParams) (cost : ℤ)
    (up : r.healthy ≡ true) (cost_pos : pos 0 <ℤ cost) (limit_pos : pos 0 <ℤ params.limit)
    (window_pos : pos 0 <ℤ params.window) (window_fits : pos_part params.window ≤ max_int64)
    (no_overflow : pos_part params.limit + pos_part cost ≤ max_int64)
    (w : Within params.limit (counter_at r now key params.window)) where
  -- A request on a redis that is up, with a positive cost, limit and window, on a counter within
  -- the limit and a cost that leaves room for the limit in an int64: it is answered, it is allowed
  -- exactly if its cost fits what is left of the limit, and the answer says what is left after it,
  -- the limit, the time to the end of the window, and, on a refusal, that time to wait.
  pub exec-Answers :
      (d : Decision) × ((exec_fixed_window r now key params cost).1 ≡ ok d)
      × Answers params now cost (pos_part (counter_at r now key params.window).used) d
  unfolding exec_fixed_window
  exec-Answers =
      let c = counter_at r now key params.window in
      (
        answer params params.window now cost c,
        rw (admit_ok r params cost up cost_pos limit_pos window_pos, exec_fixed_window),
        answer-Answers params now cost c cost_pos limit_pos window_pos window_fits no_overflow w,
      )

-- What passing the guards says.
pub admit_inv :
    {F : Type 0} (r : InMemoryRedis F) (params : RuleParams) (cost window : ℤ)
    → admit r params cost ≡ ok window
    → (pos 0 <ℤ cost) × (pos 0 <ℤ params.limit) × (pos 0 <ℤ params.window → window ≡ params.window)
unfolding admit
admit_inv r params cost window h = ground arith

-- A window that is not positive stands for the default of a new redis, a second.
abbrev pub window_of : RuleParams → ℤ
window_of params = if ltb_ℤ (pos 0) params.window then params.window else second

pub admit_window :
    {F : Type 0} (r : InMemoryRedis F) (params : RuleParams) (cost window : ℤ)
    → r.window_default ≡ second
    → admit r params cost ≡ ok window
    → window ≡ window_of params
unfolding admit
admit_window r params cost window d h = ground (arith, h, d)

pub window_of_pos : (params : RuleParams) → pos 0 <ℤ window_of params
window_of_pos params = ground arith
