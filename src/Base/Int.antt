-- ===== src/Base/Int.antt =====
-- Go's signed integers. `int64` is an integer of ℤ; each operation of the source wraps its
-- result to 64 bits. The library's ℤ stands on the unary ℕ, so this one has its names.
use Prim.Native.Nat.{ℕ, suc, ◌+◌, ◌-◌, ◌*◌, ◌/◌, ◌%◌, ◌^◌, ◌≤◌, ◌<◌}
use mathlib.Core.Path.{◌≡◌, refl}
use mathlib.Core.Bool.{Bool, true}
use mathlib.Core.Logic.{◌↔◌}
use native.Mathlib.Nat.{div-mul-le_self}
use native.Mathlib.Omega.{arith}
use distributed_rate_limiter.Base.Tests.{ltb, leb, ◌==◌, if◌then◌else◌}

-- `negsuc n` is -(n + 1).
pub data ℤ : Type 0 where
  pos : ℕ → ℤ
  negsuc : ℕ → ℤ

abbrev pub pos_part : ℤ → ℕ
pos_part (pos n) = n
pos_part (negsuc n) = 0

abbrev pub neg_part : ℤ → ℕ
neg_part (pos n) = 0
neg_part (negsuc n) = suc n

-- a - b, as an integer.
abbrev pub sub_ℕ : ℕ → ℕ → ℤ
sub_ℕ a b = if leb b a then pos (a - b) else negsuc (b - a - 1)

infixl 65 ◌+ℤ◌ ◌-ℤ◌
infix 50 ◌≤ℤ◌ ◌<ℤ◌
unfoldable pub ◌+ℤ◌ : ℤ → ℤ → ℤ
a +ℤ b = sub_ℕ (pos_part a + pos_part b) (neg_part a + neg_part b)

unfoldable pub ◌-ℤ◌ : ℤ → ℤ → ℤ
a -ℤ b = sub_ℕ (pos_part a + neg_part b) (neg_part a + pos_part b)

abbrev pub ◌≤ℤ◌ : ℤ → ℤ → Type 0
a ≤ℤ b = pos_part a + neg_part b ≤ pos_part b + neg_part a

abbrev pub ◌<ℤ◌ : ℤ → ℤ → Type 0
a <ℤ b = pos_part a + neg_part b < pos_part b + neg_part a

abbrev pub ltb_ℤ : ℤ → ℤ → Bool
ltb_ℤ a b = ltb (pos_part a + neg_part b) (pos_part b + neg_part a)

abbrev pub leb_ℤ : ℤ → ℤ → Bool
leb_ℤ a b = leb (pos_part a + neg_part b) (pos_part b + neg_part a)

abbrev pub eqb_ℤ : ℤ → ℤ → Bool
eqb_ℤ a b = (pos_part a + neg_part b) == (pos_part b + neg_part a)

pub eqb_ℤ_iff : (a b : ℤ) → (eqb_ℤ a b ≡ true) ↔ (a ≡ b)
eqb_ℤ_iff a b = ground arith

-- A bit pattern below 2 ^ 64 as the integer that it stands for.
unfoldable pub of_bits : ℕ → ℤ
of_bits u = if ltb u (2 ^ 63) then pos u else negsuc (2 ^ 64 - 1 - u)

-- The integer that is left of `z` in 64 bits.
unfoldable pub wrap64 : ℤ → ℤ
unfolding of_bits
wrap64 (pos n) = of_bits (n % 2 ^ 64)
wrap64 (negsuc n) = of_bits (2 ^ 64 - 1 - n % 2 ^ 64)

unfoldable pub add64 : ℤ → ℤ → ℤ
unfolding wrap64 ◌+ℤ◌
add64 a b = wrap64 (a +ℤ b)

unfoldable pub sub64 : ℤ → ℤ → ℤ
unfolding wrap64 ◌-ℤ◌
sub64 a b = wrap64 (a -ℤ b)

-- math.MaxInt64
abbrev pub max_int64 : ℕ
max_int64 = 2 ^ 63 - 1

abbrev pub IsInt64 : ℤ → Type 0
IsInt64 (pos n) = n < 2 ^ 63
IsInt64 (negsuc n) = n < 2 ^ 63

pub wrap64-IsInt64 : (z : ℤ) → IsInt64 (wrap64 z)
unfolding wrap64
wrap64-IsInt64 (pos n) = ground arith
wrap64-IsInt64 (negsuc n) = ground arith

pub wrap64_exact : (z : ℤ) → IsInt64 z → wrap64 z ≡ z
unfolding wrap64
wrap64_exact (pos n) h = ground arith
wrap64_exact (negsuc n) h = ground arith

pub add64_pos : (a b : ℕ) → a + b < 2 ^ 63 → add64 (pos a) (pos b) ≡ pos (a + b)
unfolding add64
add64_pos a b h = ground arith

-- A sum of two positive numbers that does not fit comes out negative.
pub add64_overflow :
    (a b : ℕ)
    → a < 2 ^ 63
    → b < 2 ^ 63
    → 2 ^ 63 ≤ a + b
    → add64 (pos a) (pos b) ≡ negsuc (2 ^ 64 - 1 - (a + b))
unfolding add64
add64_overflow a b ha hb h = ground arith

pub sub64_pos : (a b : ℕ) → b ≤ a → a < 2 ^ 63 → sub64 (pos a) (pos b) ≡ pos (a - b)
unfolding sub64
sub64_pos a b h k = ground arith

pub sub64_small : (a b : ℕ) → a < b → b < 2 ^ 63 → sub64 (pos a) (pos b) ≡ negsuc (b - a - 1)
unfolding sub64
sub64_small a b h k = ground arith

pub add64_nonneg :
    (a b : ℤ)
    → pos 0 ≤ℤ a
    → pos 0 ≤ℤ b
    → pos_part a + pos_part b < 2 ^ 63
    → add64 a b ≡ pos (pos_part a + pos_part b)
add64_nonneg (pos a) (pos b) h k l = add64_pos a b l
add64_nonneg (pos a) (negsuc b) h k l = absurd (omega arith)
add64_nonneg (negsuc a) b h k l = absurd (omega arith)

pub sub64_nonneg :
    (a b : ℤ)
    → pos 0 ≤ℤ a
    → pos 0 ≤ℤ b
    → pos_part a < 2 ^ 63
    → pos_part b < 2 ^ 63
    → sub64 a b ≡ sub_ℕ (pos_part a) (pos_part b)
unfolding sub64
sub64_nonneg (pos a) (pos b) h k l m = ground arith
sub64_nonneg (pos a) (negsuc b) h k l m = absurd (omega arith)
sub64_nonneg (negsuc a) b h k l m = absurd (omega arith)

pub nonneg_eq : (z : ℤ) → pos 0 ≤ℤ z → z ≡ pos (pos_part z)
nonneg_eq (pos n) h = refl
nonneg_eq (negsuc n) h = absurd (omega arith)

pub add64_pred : (a : ℕ) → a + 1 < 2 ^ 63 → add64 (pos (a + 1)) (negsuc 0) ≡ pos a
unfolding add64
add64_pred a h = ground arith

-- `a / b` of Go for a positive divisor: the quotient is rounded towards zero.
unfoldable pub quot64 : ℤ → ℕ → ℤ
unfolding ◌-ℤ◌
quot64 (pos n) b = pos (n / b)
quot64 (negsuc n) b = pos 0 -ℤ pos (suc n / b)

pub quot64-le : (a : ℤ) (b : ℕ) → 0 < b → pos_part (quot64 a b) * b ≤ pos_part a
unfolding quot64
quot64-le (pos n) b h = div-mul-le_self n b
quot64-le (negsuc n) b h = ground arith
