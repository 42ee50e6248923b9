-- ===== src/Shared/Floats.antt =====
-- What the program relies on of `float64`: IEEE 754 arithmetic on finite values is exact on integers
-- up to 2^53 and monotone. The hardware's arithmetic is a parameter of the code that uses it.
use Prim.Native.Nat.{ℕ, ◌+◌, ◌-◌, ◌*◌, ◌^◌, ◌≤◌, ◌<◌}
use mathlib.Core.Path.{◌≡◌}
use mathlib.Core.Bool.{Bool}
use jejak_inderasakti_be.Shared.Tests.{ltb}

abbrev pub max_exact : ℕ
max_exact = 2 ^ 53

pub record Float64 : Type 1 where
  -- The finite doubles.
  pub F : Type 0
  pub of_int : ℕ → F
  pub add : F → F → F
  pub sub : F → F → F
  pub mul : F → F → F
  pub div : F → F → F
  -- The doubles nearest to 0.4 and 0.6.
  pub c04 : F
  pub c06 : F
  -- `int(math.Round(x))` of an x that is not negative.
  pub round : F → ℕ
  pub lt : F → F → Bool
  pub Le : F → F → Type 0
  pub Le_refl : (x : F) → Le x x
  pub Le_trans : {x y z : F} → Le x y → Le y z → Le x z
  pub of_int_mono : (m n : ℕ) → m ≤ n → Le (of_int m) (of_int n)
  pub add_mono : {x x' y y' : F} → Le x x' → Le y y' → Le (add x y) (add x' y')
  pub sub_anti : (x : F) {y y' : F} → Le y' y → Le (sub x y) (sub x y')
  pub mul_mono :
      {x x' y y' : F}
      → Le (of_int 0) x
      → Le x x'
      → Le (of_int 0) y
      → Le y y'
      → Le (mul x y) (mul x' y')
  pub div_mono : {x x' : F} (n : ℕ) → 0 < n → Le x x' → Le (div x (of_int n)) (div x' (of_int n))
  pub round_mono : {x y : F} → Le x y → round x ≤ round y
  pub round-of_int : (n : ℕ) → n ≤ max_exact → round (of_int n) ≡ n
  pub add-of_int : (m n : ℕ) → m + n ≤ max_exact → add (of_int m) (of_int n) ≡ of_int (m + n)
  pub sub-of_int : (m n : ℕ) → n ≤ m → m ≤ max_exact → sub (of_int m) (of_int n) ≡ of_int (m - n)
  pub mul-of_int : (m n : ℕ) → m * n ≤ max_exact → mul (of_int m) (of_int n) ≡ of_int (m * n)
  pub div_self : (n : ℕ) → 0 < n → div (of_int n) (of_int n) ≡ of_int 1
  pub div-zero : (n : ℕ) → 0 < n → div (of_int 0) (of_int n) ≡ of_int 0
  pub lt-of_int : (m n : ℕ) → m ≤ max_exact → n ≤ max_exact → lt (of_int m) (of_int n) ≡ ltb m n
  pub mul-one : (x : F) → mul x (of_int 1) ≡ x
  pub mul-zero : (x : F) → mul x (of_int 0) ≡ of_int 0
  pub add-zero : (x : F) → add x (of_int 0) ≡ x
  pub c04_nonneg : Le (of_int 0) c04
  pub c06_nonneg : Le (of_int 0) c06
  pub c06-add-c04 : add c06 c04 ≡ of_int 1
  pub round-mul-c06 : (k : ℕ) → k ≤ 1000 → round (mul (of_int (5 * k)) c06) ≡ 3 * k
