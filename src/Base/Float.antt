-- ===== src/Base/Float.antt =====
-- float64, which antt does not have: a type with the operations that the program applies, and
-- the facts of IEEE 754 arithmetic that the token bucket relies on.
pub mod Whole
use distributed_rate_limiter.Base.Tests.{if◌then◌else◌}
use distributed_rate_limiter.Base.Int.{ℤ, pos, ◌≤ℤ◌, ◌<ℤ◌}
use Prim.Native.Nat.{ℕ, ◌+◌}
use mathlib.Core.Path.{◌≡◌, refl}
use mathlib.Core.Bool.{Bool, true, false}

pub record Float64 : Type 1 where
  pub F : Type 0
  -- float64(n)
  pub of_int : ℤ → F
  -- d.Seconds()
  pub seconds : ℤ → F
  pub add : F → F → F
  pub sub : F → F → F
  pub mul : F → F → F
  pub div : F → F → F
  -- math.Min
  pub min : F → F → F
  -- a <= b, false where one is not a number
  pub le : F → F → Bool
  -- a < b
  pub lt : F → F → Bool
  -- int64(math.Floor(a))
  pub floor_int : F → ℤ
  -- int(math.Ceil(a))
  pub ceil_int : F → ℤ
  -- time.Duration(a)
  pub to_duration : F → ℤ

-- `le a a` says that `a` is a number.
pub record Float64Laws (fl : Float64) : Type 0 where
  pub le_trans : (a b c : fl.F) → fl.le a b ≡ true → fl.le b c ≡ true → fl.le a c ≡ true
  pub of_int_mono : (m n : ℤ) → m ≤ℤ n → fl.le (fl.of_int m) (fl.of_int n) ≡ true
  pub min-le_left : (a b : fl.F) → fl.le a a ≡ true → fl.le b b ≡ true → fl.le (fl.min a b) a ≡ true
  pub le-min : (a b c : fl.F) → fl.le c a ≡ true → fl.le c b ≡ true → fl.le c (fl.min a b) ≡ true
  pub le_self_left : (a b : fl.F) → fl.le a b ≡ true → fl.le a a ≡ true
  pub le_self_right : (a b : fl.F) → fl.le a b ≡ true → fl.le b b ≡ true
  -- A finite number taken away from one that is at least as large.
  pub sub-le :
      (a : fl.F) (n : ℤ)
      → pos 0 ≤ℤ n
      → fl.le (fl.of_int n) a ≡ true
      → fl.le (fl.sub a (fl.of_int n)) a ≡ true
  pub sub_nonneg :
      (a : fl.F) (n : ℤ)
      → fl.le (fl.of_int n) a ≡ true
      → fl.le (fl.of_int (pos 0)) (fl.sub a (fl.of_int n)) ≡ true
  pub le-add :
      (a b : fl.F)
      → fl.le (fl.of_int (pos 0)) a ≡ true
      → fl.le (fl.of_int (pos 0)) b ≡ true
      → fl.le a (fl.add a b) ≡ true
  -- A span of time times a rate, which is a positive limit over a positive span of time.
  pub refill_nonneg :
      (d l w : ℤ)
      → pos 0 <ℤ l
      → pos 0 <ℤ w
      → fl.lt (fl.of_int (pos 0)) (fl.seconds d) ≡ true
      → fl.le (fl.of_int (pos 0)) (fl.mul (fl.seconds d) (fl.div (fl.of_int l) (fl.seconds w)))
        ≡ true
