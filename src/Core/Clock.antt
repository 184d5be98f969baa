-- ===== src/Core/Clock.antt =====
-- The operations of Go's package time that the program uses. A time is the number of nanoseconds
-- since the year 1, Go's zero time; a duration is an int64 of nanoseconds.
use distributed_rate_limiter.Base.{ℕ, ◌+◌, ◌-◌, ◌*◌, ◌/◌, ◌%◌, ◌≤◌, ◌<◌, ◌≡◌, arith, if◌then◌else◌}
use distributed_rate_limiter.Base.Int.{
  ℤ, pos, negsuc, sub_ℕ, leb_ℤ, pos_part, neg_part, max_int64, ◌<ℤ◌,
}
use Prim.Native.Nat.{min}
use native.Mathlib.Nat.{le-div_iff_mul-le, div-mul-le_self, div-add-mod, le_trans}

-- time.Second
abbrev pub second : ℤ
second = pos 1_000_000_000

-- time.Millisecond times `n`
abbrev pub milliseconds : ℕ → ℤ
milliseconds n = pos (n * 1_000_000)

-- `a.Sub(b)`: the difference, kept to the range of a duration.
unfoldable pub sub_time : ℕ → ℕ → ℤ
sub_time a b = saturate (sub_ℕ a b)
  where
    saturate : ℤ → ℤ
    saturate (pos n) = pos (min n max_int64)
    saturate (negsuc n) = negsuc (min n max_int64)

-- `t.Truncate(d)`: rounded down to a multiple of `d` since the zero time.
unfoldable pub truncate : ℕ → ℤ → ℕ
truncate t d = if leb_ℤ d (pos 0) then t else t - t % pos_part d

-- `t.Add(d)` for a duration that does not lead before the zero time.
unfoldable pub add_time : ℕ → ℤ → ℕ
add_time t d = t + pos_part d - neg_part d

-- A window starts at or before each of its instants, which comes before its end.
pub truncate_bounds : (t w : ℕ) → 0 < w → (truncate t (pos w) ≤ t) × (t < truncate t (pos w) + w)
unfolding truncate
truncate_bounds t w h = grind arith

mul_mono : (w a b : ℕ) → a ≤ b → a * w ≤ b * w
mul_mono w a b h = grind arith

truncate_eq : (t w : ℕ) → 0 < w → truncate t (pos w) ≡ t / w * w
unfolding truncate
truncate_eq t w h = ground (arith, div-add-mod t w)

pub truncate_mono : (s t w : ℕ) → 0 < w → s ≤ t → truncate s (pos w) ≤ truncate t (pos w)
unfolding truncate
truncate_mono s t w h k =
    let low : s / w ≤ t / w = (le-div_iff_mul-le {k = w} h).1 (le_trans (div-mul-le_self s w) k) in
    ground (arith, truncate_eq s w h, truncate_eq t w h, mul_mono w _ _ low)

pub sub_time_pos : (a b : ℕ) → b ≤ a → a - b ≤ max_int64 → sub_time a b ≡ pos (a - b)
unfolding sub_time
sub_time_pos a b h k = ground arith

pub window_bounds :
    (t : ℕ) (w : ℤ) → pos 0 <ℤ w → (truncate t w ≤ t) × (t < truncate t w + pos_part w)
window_bounds t (pos w) h = truncate_bounds t w (omega arith)
window_bounds t (negsuc w) h = absurd (omega arith)

pub window_mono : (s t : ℕ) (w : ℤ) → pos 0 <ℤ w → s ≤ t → truncate s w ≤ truncate t w
window_mono s t (pos w) h k = truncate_mono s t w (omega arith) k
window_mono s t (negsuc w) h k = absurd (omega arith)
