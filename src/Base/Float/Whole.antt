-- ===== src/Base/Float/Whole.antt =====
-- Whole numbers in place of float64, for tests: they meet the laws asked of float64.
use Prim.Native.Nat.{◌*◌, ◌/◌}
use native.Mathlib.Omega.{arith}
use distributed_rate_limiter.Base.Tests.{if◌then◌else◌}
use distributed_rate_limiter.Base.Int.{ℤ, pos, pos_part, leb_ℤ, ltb_ℤ, ◌+ℤ◌, ◌-ℤ◌}
use distributed_rate_limiter.Base.Float.{Float64, Float64Laws}

-- Products and quotients are taken of the positive parts.
abbrev pub whole : Float64
whole = record {
  F = ℤ;
  of_int = λ n. n;
  seconds = λ n. n;
  add = λ a b. a +ℤ b;
  sub = λ a b. a -ℤ b;
  mul = λ a b. pos (pos_part a * pos_part b);
  div = λ a b. pos (pos_part a / pos_part b);
  min = λ a b. if leb_ℤ a b then a else b;
  le = leb_ℤ;
  lt = ltb_ℤ;
  floor_int = λ a. a;
  ceil_int = λ a. a;
  to_duration = λ a. a;
}

pub whole_laws : Float64Laws whole
unfolding ◌+ℤ◌ ◌-ℤ◌
whole_laws = record {
  le_trans = λ a b c h k. ground arith;
  of_int_mono = λ m n h. ground arith;
  min-le_left = λ a b h k. ground arith;
  le-min = λ a b c h k. ground arith;
  le_self_left = λ a b h. ground arith;
  le_self_right = λ a b h. ground arith;
  sub-le = λ a n h k. ground arith;
  sub_nonneg = λ a n h. ground arith;
  le-add = λ a b h k. ground arith;
  refill_nonneg = λ d l w h k m. ground arith;
}
