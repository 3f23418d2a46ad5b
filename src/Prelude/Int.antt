-- ===== src/Prelude/Int.antt =====
-- The `i64` of the source: integers over the native numbers, with the wrap-around of two's complement.
use Prim.Native.Nat.{ℕ, suc, ◌+◌, ◌-◌, ◌%◌, ◌^◌, ◌≤◌, ◌<◌}
use mathlib.Core.Path.{◌≡◌, refl}
use mathlib.Core.Bool.{Bool}
use native.Mathlib.Omega.{arith}
use net_tls.Prelude.Tests.{ltb, leb, if◌then◌else◌}

-- `negsuc n` is -(n + 1).
pub data ℤ : Type 0 where
  pos : ℕ → ℤ
  negsuc : ℕ → ℤ

abbrev pub pos_part : ℤ → ℕ
pos_part (pos n) = n
pos_part (negsuc n) = 0

abbrev pub neg_part : ℤ → ℕ
neg_part (pos n) = 0
neg_part (negsuc n) = suc n

-- a - b, as an integer.
abbrev pub sub_ℕ : ℕ → ℕ → ℤ
sub_ℕ a b = if leb b a then pos (a - b) else negsuc (b - a - 1)

infix 50 ◌≤ℤ◌ ◌<ℤ◌
abbrev pub ◌≤ℤ◌ : ℤ → ℤ → Type 0
a ≤ℤ b = pos_part a + neg_part b ≤ pos_part b + neg_part a

abbrev pub ◌<ℤ◌ : ℤ → ℤ → Type 0
a <ℤ b = pos_part a + neg_part b < pos_part b + neg_part a

abbrev pub leb_ℤ : ℤ → ℤ → Bool
leb_ℤ a b = leb (pos_part a + neg_part b) (pos_part b + neg_part a)

abbrev pub ltb_ℤ : ℤ → ℤ → Bool
ltb_ℤ a b = ltb (pos_part a + neg_part b) (pos_part b + neg_part a)

-- The bit pattern below 2 ^ 64 that stands for an integer, read as an `i64`.
abbrev pub signed64 : ℕ → ℤ
signed64 w = if ltb w (2 ^ 63) then pos w else negsuc (2 ^ 64 - w - 1)

-- Reduction into the range of an `i64`.
abbrev pub wrap64 : ℤ → ℤ
wrap64 (pos n) = signed64 (n % 2 ^ 64)
wrap64 (negsuc n) = signed64 (2 ^ 64 - 1 - n % 2 ^ 64)

-- `a + b` and `a - b` on `i64`, as a release build computes them.
infixl 65 ◌+ℤ◌ ◌-ℤ◌
unfoldable pub ◌+ℤ◌ : ℤ → ℤ → ℤ
a +ℤ b = wrap64 (sub_ℕ (pos_part a + pos_part b) (neg_part a + neg_part b))

unfoldable pub ◌-ℤ◌ : ℤ → ℤ → ℤ
a -ℤ b = wrap64 (sub_ℕ (pos_part a + neg_part b) (neg_part a + pos_part b))

-- `x.abs()`; the least `i64` is its own.
unfoldable pub abs : ℤ → ℤ
abs a = wrap64 (pos (pos_part a + neg_part a))

-- A moment that a clock can show: far enough from the ends of `i64` for sums of a few not to wrap.
abbrev pub IsMoment : ℤ → Type 0
IsMoment a = pos_part a + neg_part a < 2 ^ 60

-- With room to spare a sum and a difference are those of the integers.
pub +ℤ_parts :
    (a b : ℤ)
    → pos_part a + neg_part a < 2 ^ 61
    → pos_part b + neg_part b < 2 ^ 61
    → pos_part (a +ℤ b) + neg_part a + neg_part b ≡ neg_part (a +ℤ b) + pos_part a + pos_part b
unfolding ◌+ℤ◌
+ℤ_parts a b h k = ground arith

pub -ℤ_parts :
    (a b : ℤ)
    → pos_part a + neg_part a < 2 ^ 61
    → pos_part b + neg_part b < 2 ^ 61
    → pos_part (a -ℤ b) + neg_part a + pos_part b ≡ neg_part (a -ℤ b) + pos_part a + neg_part b
unfolding ◌-ℤ◌
-ℤ_parts a b h k = ground arith

-- A difference of two numbers below a bound is below it on both sides of zero.
pub size_of_parts :
    (a : ℤ) (p n b : ℕ)
    → pos_part a + n ≡ neg_part a + p
    → p < b
    → n < b
    → pos_part a + neg_part a < b
size_of_parts (pos x) p n b e h k = omega arith
size_of_parts (negsuc x) p n b e h k = omega arith

pub eq_of_parts : (a b : ℤ) → pos_part a + neg_part b ≡ pos_part b + neg_part a → a ≡ b
eq_of_parts a b h = ground arith

wraps_at_the_end : pos (2 ^ 63 - 1) +ℤ pos 1 ≡ negsuc (2 ^ 63 - 1)
unfolding ◌+ℤ◌
wraps_at_the_end = refl

below_zero : pos 3 -ℤ pos 10 ≡ negsuc 6
unfolding ◌-ℤ◌
below_zero = refl
