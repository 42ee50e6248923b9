-- ===== src/Shared/Int.antt =====
-- Signed integers over the native numbers: `int` where the program may meet a negative value.
use Prim.Native.Nat.{ℕ, suc, ◌+◌, ◌-◌, ◌/◌, ◌≤◌, min}
use mathlib.Core.Path.{◌≡◌, refl}
use native.Mathlib.Omega.{arith}
use jejak_inderasakti_be.Shared.Tests.{leb, if◌then◌else◌}

-- `negsuc n` is -(n + 1).
pub data ℤ : Type 0 where
  pos : ℕ → ℤ
  negsuc : ℕ → ℤ

abbrev pub pos_part : ℤ → ℕ
pos_part (pos n) = n
pos_part (negsuc n) = 0

abbrev pub neg_part : ℤ → ℕ
neg_part (pos n) = 0
neg_part (negsuc n) = suc n

-- a - b, as an integer.
abbrev pub sub_ℕ : ℕ → ℕ → ℤ
sub_ℕ a b = if leb b a then pos (a - b) else negsuc (b - a - 1)

infixl 65 ◌+ℤ◌
unfoldable pub ◌+ℤ◌ : ℤ → ℤ → ℤ
a +ℤ b = sub_ℕ (pos_part a + pos_part b) (neg_part a + neg_part b)

-- The quotient by a positive number, rounded towards zero as Go does.
unfoldable pub quot : ℤ → ℕ → ℤ
quot (pos n) k = pos (n / k)
quot (negsuc n) k = sub_ℕ 0 (suc n / k)

-- The smaller of an integer and a number that is not negative.
unfoldable pub min_ℕ : ℤ → ℕ → ℤ
min_ℕ (pos n) k = pos (min n k)
min_ℕ (negsuc n) k = negsuc n

pub +ℤ_parts :
    (a b : ℤ)
    → pos_part (a +ℤ b) + neg_part a + neg_part b ≡ neg_part (a +ℤ b) + pos_part a + pos_part b
unfolding ◌+ℤ◌
+ℤ_parts a b = ground arith

pub pos_part-add : (a b : ℤ) → pos_part (a +ℤ b) ≤ pos_part a + pos_part b
unfolding ◌+ℤ◌
pos_part-add a b = ground arith

pub pos_part-quot : (a : ℤ) (k : ℕ) → pos_part (quot a k) ≡ pos_part a / k
unfolding quot
pos_part-quot (pos n) k = refl
pos_part-quot (negsuc n) k = ground arith

pub pos_part-min_ℕ : (a : ℤ) (k : ℕ) → pos_part (min_ℕ a k) ≤ k
unfolding min_ℕ
pos_part-min_ℕ (pos n) k = omega arith
pos_part-min_ℕ (negsuc n) k = omega arith
