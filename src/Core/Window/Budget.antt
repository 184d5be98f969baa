-- ===== src/Core/Window/Budget.antt =====
-- What a fixed-window counter still has to give in a window. The two stores that keep such
-- counters bound by it what they grant over any sequence of requests.
use distributed_rate_limiter.Base.{
  ℕ, ◌+◌, ◌-◌, ◌≤◌, ◌≡◌, arith, ltb, ◌&&◌, if◌then◌else◌, Option, none, some, ◌==◌,
}
use distributed_rate_limiter.Base.Int.{ℤ, pos, pos_part, ◌≤ℤ◌, ◌<ℤ◌, max_int64, add64_nonneg}
use distributed_rate_limiter.Core.Window.{WindowCounter, roll, fits, charge}
use distributed_rate_limiter.Core.Window.Laws.{
  Within, roll-Within, fresh-Within, charge_used, charge-Within, fits_exact,
}

-- What the window `W` can still grant under the limit `l`: nothing if the counter is past it.
abbrev pub budget : ℤ → ℕ → Option WindowCounter → ℕ
budget l W none = pos_part l
budget l W (some c) =
    if c.window_start == W
    then pos_part l - pos_part c.used
    else (if ltb c.window_start W then pos_part l else 0)

-- The counter lies within the limit and belongs to no window that starts after `s`.
abbrev pub Settled : ℤ → ℕ → Option WindowCounter → Type 0
Settled l s none = Unit {0}
Settled l s (some c) = Within l c × (c.window_start ≤ s)

module _ (l : ℤ) (s : ℕ) (v : Option WindowCounter) (limit_pos : pos 0 <ℤ l)
    (settled : Settled l s v) where
  pub roll_settled : Within l (roll s v)
  roll_settled = go v settled
    where
      go : (o : Option WindowCounter) → Settled l s o → Within l (roll s o)
      go none t = fresh-Within l s (omega arith)
      go (some c) t = roll-Within l s c (omega arith) t.0

  pub budget-roll : (W : ℕ) → budget l W (some (roll s v)) ≤ budget l W v
  unfolding roll
  budget-roll W = go v settled
    where
      go : (o : Option WindowCounter) → Settled l s o → budget l W (some (roll s o)) ≤ budget l W o
      go none t = ground arith
      go (some c) t = ground (arith, t.0.used_nonneg, t.1)

window_start-charge :
    (l cost : ℤ) (c : WindowCounter) → (charge l cost c).window_start ≡ c.window_start
unfolding charge
window_start-charge l cost c = ground arith

module _ (l cost : ℤ) (c : WindowCounter) (w : Within l c) (cost_pos : pos 0 <ℤ cost)
    (no_overflow : pos_part l + pos_part cost ≤ max_int64) where
  -- What is granted in a window comes out of the window's budget.
  pub budget-charge :
      (W : ℕ)
      → (if fits l cost c && (c.window_start == W) then pos_part cost else 0)
          + budget l W (some (charge l cost c))
        ≤ budget l W (some c)
  budget-charge W = ground (
    arith,
    charge_used l cost c w cost_pos no_overflow,
    window_start-charge l cost c,
    fits_exact l cost c w cost_pos no_overflow,
    w.used_nonneg,
  )

  pub charge-Settled : (s : ℕ) → c.window_start ≤ s → Settled l s (some (charge l cost c))
  charge-Settled s h =
      (charge-Within l cost c w cost_pos no_overflow, ground (arith, window_start-charge l cost c))

-- The same where the limit of the request lies below the one that the budget is for.
module _ (L l cost : ℤ) (c : WindowCounter) (w : Within L c) (below : l ≤ℤ L)
    (cost_pos : pos 0 <ℤ cost) (no_overflow : pos_part L + pos_part cost ≤ max_int64) where
  pub budget-charge_below :
      (W : ℕ)
      → (if fits l cost c && (c.window_start == W) then pos_part cost else 0)
          + budget L W (some (charge l cost c))
        ≤ budget L W (some c)
  unfolding charge
  budget-charge_below W = ground (arith, w.used_nonneg, w.used-le, add64_nonneg c.used cost)

  pub charge-Settled_below : (s : ℕ) → c.window_start ≤ s → Settled L s (some (charge l cost c))
  unfolding charge
  charge-Settled_below s h = ground (arith, w.used_nonneg, w.used-le, add64_nonneg c.used cost)
