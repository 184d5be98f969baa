-- ===== src/Store/Redis/SlidingWindow/Laws.antt =====
-- What one sliding-window request does to the events of its key.
use distributed_rate_limiter.Base.{
  ℕ, ◌+◌, ◌≤◌, ◌<◌, ◌≡◌, refl, true, false, arith, leb, ◌&&◌, if◌then◌else◌, inl, inr, Bool-cases,
  ap, ◌∙◌, List, [], ◌∷◌, ◌++◌, All, All-append,
}
use distributed_rate_limiter.Base.Int.{
  ℤ, pos, pos_part, ◌≤ℤ◌, ◌<ℤ◌, max_int64, add64_nonneg, nonneg_eq,
}
use distributed_rate_limiter.Core.Clock.{add_time}
use distributed_rate_limiter.Store.Redis.{SwEvent}
use distributed_rate_limiter.Store.Redis.SlidingWindow.{
  live, total_cost, sliding_fits, sliding_charge,
}

-- The sum of the costs, as a number that does not wrap.
unfoldable pub weight : List SwEvent → ℕ
weight [] = 0
weight (e ∷ es) = pos_part e.cost + weight es

abbrev pub Nonneg : List SwEvent → Type 0
Nonneg = All (λ e. pos 0 ≤ℤ e.cost)

pub weight-append : (xs ys : List SwEvent) → weight (xs ++ ys) ≡ weight xs + weight ys
unfolding weight
weight-append [] ys = omega arith
weight-append (x ∷ xs) ys = omega (arith, weight-append xs ys)

pub live-append :
    (now : ℕ) (w : ℤ) (xs ys : List SwEvent)
    → live now w (xs ++ ys) ≡ live now w xs ++ live now w ys
unfolding live
live-append now w [] ys = refl
live-append now w (x ∷ xs) ys = ground (arith, live-append now w xs ys)

-- What is in the window later is in it now, among the events up to now.
pub live-live :
    (now later : ℕ) (w : ℤ) (es : List SwEvent)
    → now ≤ later
    → live later w (live now w es) ≡ live later w es
unfolding live
live-live now later w [] h = refl
live-live now later w (e ∷ es) h = ground (arith, live-live now later w es h)

pub weight-live_mono :
    (now later : ℕ) (w : ℤ) (es : List SwEvent)
    → now ≤ later
    → weight (live later w es) ≤ weight (live now w es)
unfolding live weight
weight-live_mono now later w [] h = omega arith
weight-live_mono now later w (e ∷ es) h = ground (arith, weight-live_mono now later w es h)

pub live-Nonneg : (now : ℕ) (w : ℤ) (es : List SwEvent) → Nonneg es → Nonneg (live now w es)
unfolding live
live-Nonneg now w [] n = tt
live-Nonneg now w (e ∷ es) n = ground (arith, live-Nonneg now w es n.1)

-- The loop of the source computes the sum, as long as that fits in an int64.
pub total_cost-weight :
    (acc : ℤ) (es : List SwEvent)
    → pos 0 ≤ℤ acc
    → Nonneg es
    → pos_part acc + weight es ≤ max_int64
    → total_cost acc es ≡ pos (pos_part acc + weight es)
unfolding total_cost weight
total_cost-weight acc [] p n b = ground (arith, nonneg_eq acc p)
total_cost-weight acc (e ∷ es) p n b = rw (add64_nonneg acc e.cost p n.0 (omega arith)) (
    total_cost-weight (pos (pos_part acc + pos_part e.cost)) es (omega arith) n.1 (omega arith)
    ∙ ap pos (omega arith))

module _ (l cost : ℤ) (es : List SwEvent) (n : Nonneg es) (cost_pos : pos 0 <ℤ cost)
    (limit_pos : pos 0 <ℤ l) (within : weight es ≤ pos_part l)
    (no_overflow : pos_part l + pos_part cost ≤ max_int64) where
  pub sliding_fits_exact :
      (sliding_fits l cost es ≡ true → weight es + pos_part cost ≤ pos_part l)
      × (sliding_fits l cost es ≡ false → pos_part l < weight es + pos_part cost)
  unfolding sliding_fits
  sliding_fits_exact = ground (
    arith,
    total_cost-weight (pos 0) es (omega arith) n (omega arith),
    add64_nonneg (total_cost (pos 0) es) cost,
  )

  pub charge-Nonneg : (now : ℕ) → Nonneg (sliding_charge l cost now es)
  unfolding sliding_charge
  charge-Nonneg now = elim (Bool-cases (sliding_fits l cost es)) [
    | inl e ↦ rw (e, sliding_charge) (All-append (λ e. pos 0 ≤ℤ e.cost) es _ n (omega arith, tt))
    | inr e ↦ rw (e, sliding_charge) n
  ]

-- The weight in the window at a later instant: what it was, and the new event if it is admitted
-- and still in the window then.
pub weight-sliding_charge :
    (l cost w : ℤ) (now t : ℕ) (es : List SwEvent)
    → now ≤ t
    → weight (live t w (sliding_charge l cost now (live now w es)))
      ≡ weight (live t w es)
        + (if sliding_fits l cost (live now w es) && leb t (add_time now w)
            then pos_part cost
            else 0)
unfolding sliding_charge weight live
weight-sliding_charge l cost w now t es h = ground (
  arith,
  live-live now t w es h,
  live-append t w (live now w es) (record { t = now; cost = cost } ∷ []),
  weight-append (live t w es) (live t w (record { t = now; cost = cost } ∷ [])),
  weight-append (live t w es) [],
)
