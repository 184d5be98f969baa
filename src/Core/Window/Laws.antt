-- ===== src/Core/Window/Laws.antt =====
-- What a charge does to a fixed-window counter.
use distributed_rate_limiter.Base.{
  ℕ, ◌+◌, ◌-◌, ◌≤◌, ◌<◌, ◌≡◌, refl, true, false, arith, if◌then◌else◌, Option, none, some,
}
use distributed_rate_limiter.Base.Int.{
  ℤ, pos, negsuc, add64_nonneg, add64_overflow, sub64_nonneg, nonneg_eq, pos_part, ◌≤ℤ◌, ◌<ℤ◌,
  max_int64,
}
use distributed_rate_limiter.Core.Clock.{add_time, sub_time_pos, truncate, truncate_bounds}
use distributed_rate_limiter.Core.Window.{WindowCounter, roll, fits, charge, remaining_of, reset_of}

-- The used part lies between nothing and the limit.
pub record Within (limit : ℤ) (c : WindowCounter) : Type 0 where
  pub used_nonneg : pos 0 ≤ℤ c.used
  pub used-le : c.used ≤ℤ limit

pub roll-Within :
    (l : ℤ) (start : ℕ) (c : WindowCounter)
    → pos 0 ≤ℤ l
    → Within l c
    → Within l (roll start (some c))
unfolding roll
roll-Within l start c p w = ground arith

pub fresh-Within : (l : ℤ) (start : ℕ) → pos 0 ≤ℤ l → Within l (roll start none)
unfolding roll
fresh-Within l start p = ground arith

pub window_start-roll : (start : ℕ) (o : Option WindowCounter) → (roll start o).window_start ≡ start
unfolding roll
window_start-roll start none = refl
window_start-roll start (some c) = ground arith

module _ (l cost : ℤ) (c : WindowCounter) (w : Within l c) (p : pos 0 <ℤ cost)
    (no_overflow : pos_part l + pos_part cost ≤ max_int64) where
  -- A cost that fits is added whole, and one that does not leaves the counter alone.
  pub charge_used :
      pos_part (charge l cost c).used
      ≡ pos_part c.used + (if fits l cost c then pos_part cost else 0)
  unfolding charge
  charge_used = ground (arith, w.used_nonneg, w.used-le, add64_nonneg c.used cost)

  pub charge-Within : Within l (charge l cost c)
  unfolding charge
  charge-Within = ground (arith, w.used_nonneg, w.used-le, add64_nonneg c.used cost)

  -- A request is refused only if its cost would pass the limit.
  pub fits_exact :
      (fits l cost c ≡ true → pos_part c.used + pos_part cost ≤ pos_part l)
      × (fits l cost c ≡ false → pos_part l < pos_part c.used + pos_part cost)
  unfolding fits
  fits_exact = ground (arith, w.used_nonneg, w.used-le, add64_nonneg c.used cost)

-- What is left of the limit, with no wrap and no floor at zero to be seen.
pub remaining_of_lem :
    (l : ℤ) (c : WindowCounter)
    → pos 0 ≤ℤ l
    → pos_part l ≤ max_int64
    → Within l c
    → remaining_of l c ≡ pos (pos_part l - pos_part c.used)
unfolding remaining_of
remaining_of_lem l c p b w = ground (arith, w.used_nonneg, w.used-le, sub64_nonneg l c.used)

-- The time to the end of the window is the plain difference: nothing saturates.
pub reset_of_lem :
    (now : ℕ) (w : ℤ)
    → pos 0 <ℤ w
    → pos_part w ≤ max_int64
    → reset_of (truncate now w) w now ≡ pos (truncate now w + pos_part w - now)
unfolding reset_of add_time
reset_of_lem now (pos w) p b =
    ground
      (arith, truncate_bounds now w (omega arith), sub_time_pos (truncate now (pos w) + w - 0) now)
reset_of_lem now (negsuc w) p b = absurd (omega arith)

-- A cost that takes the used part past the largest int64, where each of them is below it, passes
-- the test against every limit that is not negative, and leaves a negative counter.
pub overflow-fits :
    (l cost : ℤ) (c : WindowCounter)
    → pos 0 ≤ℤ l
    → pos 0 ≤ℤ c.used
    → pos 0 ≤ℤ cost
    → pos_part c.used ≤ max_int64
    → pos_part cost ≤ max_int64
    → max_int64 < pos_part c.used + pos_part cost
    → (fits l cost c ≡ true) × ((charge l cost c).used <ℤ pos 0)
unfolding charge
overflow-fits l cost c p q o a b h =
    ground (
      arith,
      nonneg_eq c.used q,
      nonneg_eq cost o,
      add64_overflow (pos_part c.used) (pos_part cost),
    )
