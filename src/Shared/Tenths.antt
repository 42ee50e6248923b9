-- ===== src/Shared/Tenths.antt =====
-- The laws of `Float64` can be met: numbers with one decimal digit.
use Prim.Native.Nat.{ℕ, ◌+◌, ◌-◌, ◌*◌, ◌/◌, ◌≤◌, ◌<◌}
use mathlib.Core.Path.{◌≡◌}
use native.Mathlib.Nat.{le_refl, le_trans}
use native.Mathlib.Omega.{arith}
use jejak_inderasakti_be.Shared.Tests.{ltb}
use jejak_inderasakti_be.Shared.Floats.{Float64}

pub mul_mono : {a a' b b' : ℕ} → 0 ≤ a → a ≤ a' → 0 ≤ b → b ≤ b' → a * b / 10 ≤ a' * b' / 10
mul_mono _ h _ k = grind arith

pub div_mono : {a a' : ℕ} (n : ℕ) → 0 < n → a ≤ a' → a * 10 / (n * 10) ≤ a' * 10 / (n * 10)
div_mono n _ h = grind arith

pub div_self : (n : ℕ) → 0 < n → n * 10 * 10 / (n * 10) ≡ 10
div_self n h = grind arith

pub div-zero : (n : ℕ) → 0 < n → 0 * 10 * 10 / (n * 10) ≡ 0
div-zero n h = grind arith

pub lt-of_int : (m n : ℕ) → ltb (m * 10) (n * 10) ≡ ltb m n
lt-of_int m n = ground arith

pub mul-of_int : (m n : ℕ) → m * 10 * (n * 10) / 10 ≡ m * n * 10
mul-of_int m n = omega arith

pub add_mono : {a a' b b' : ℕ} → a ≤ a' → b ≤ b' → a + b ≤ a' + b'
add_mono h k = omega arith

pub sub_anti : (a : ℕ) {b b' : ℕ} → b' ≤ b → a - b ≤ a - b'
sub_anti a h = omega arith

pub round_mono : {a b : ℕ} → a ≤ b → (a + 5) / 10 ≤ (b + 5) / 10
round_mono h = omega arith

pub round-of_int : (n : ℕ) → (n * 10 + 5) / 10 ≡ n
round-of_int n = omega arith

pub round-mul-c06 : (k : ℕ) → (5 * k * 10 * 6 / 10 + 5) / 10 ≡ 3 * k
round-mul-c06 k = omega arith

pub scale_mono : (m n : ℕ) → m ≤ n → m * 10 ≤ n * 10
scale_mono m n h = omega arith

pub add-of_int : (m n : ℕ) → m * 10 + n * 10 ≡ (m + n) * 10
add-of_int m n = omega arith

pub sub-of_int : (m n : ℕ) → m * 10 - n * 10 ≡ (m - n) * 10
sub-of_int m n = omega arith

pub mul-one : (x : ℕ) → x * (1 * 10) / 10 ≡ x
mul-one x = omega arith

pub mul-zero : (x : ℕ) → x * (0 * 10) / 10 ≡ 0
mul-zero x = omega arith

pub add-zero : (x : ℕ) → x + 0 * 10 ≡ x
add-zero x = omega arith

pub constants : (0 * 10 ≤ 4) × (0 * 10 ≤ 6) × (6 + 4 ≡ 1 * 10)
constants = omega arith

abbrev pub tenths : Float64
tenths = record {
  F = ℕ;
  of_int = λ n. n * 10;
  add = ◌+◌;
  sub = ◌-◌;
  mul = λ a b. a * b / 10;
  div = λ a b. a * 10 / b;
  c04 = 4;
  c06 = 6;
  round = λ x. (x + 5) / 10;
  lt = ltb;
  Le = ◌≤◌;
  Le_refl = le_refl;
  Le_trans = le_trans;
  of_int_mono = scale_mono;
  add_mono = add_mono;
  sub_anti = sub_anti;
  mul_mono = mul_mono;
  div_mono = div_mono;
  round_mono = round_mono;
  round-of_int = λ n _. round-of_int n;
  add-of_int = λ m n _. add-of_int m n;
  sub-of_int = λ m n _ _. sub-of_int m n;
  mul-of_int = λ m n _. mul-of_int m n;
  div_self = div_self;
  div-zero = div-zero;
  lt-of_int = λ m n _ _. lt-of_int m n;
  mul-one = mul-one;
  mul-zero = mul-zero;
  add-zero = add-zero;
  c04_nonneg = constants.0;
  c06_nonneg = constants.1;
  c06-add-c04 = constants.2;
  round-mul-c06 = λ k _. round-mul-c06 k;
}
