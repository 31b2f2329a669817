-- ===== src/Prelude/Bits.antt =====
-- `bit_or` of numbers whose bits do not meet is their sum.
use Prim.Native.Nat.{
  ℕ, zero, suc, ◌+◌, ◌*◌, ◌/◌, ◌%◌, ◌^◌, ◌≤◌, ◌<◌, max, bit_or, digits, bit_or-bitwise,
}
use mathlib.Core.Path.{◌≡◌, refl, ap, ◌∙◌}
use native.Mathlib.Nat.{pow-suc}
use native.Mathlib.Omega.{arith}

-- The law for the lowest digit, from the definition that the native operation stands for.
abbrev or_digits : ℕ → ℕ → ℕ → ℕ
or_digits n a b = digits (λ b. b) max n a b

or_digits_fuel : (n m a b : ℕ) → a ≤ n → a ≤ m → or_digits n a b ≡ or_digits m a b
or_digits_fuel zero zero a b p q = refl
or_digits_fuel zero (suc m) zero b p q = refl
or_digits_fuel zero (suc m) (suc a) b p q = absurd (omega arith)
or_digits_fuel (suc n) zero zero b p q = refl
or_digits_fuel (suc n) zero (suc a) b p q = absurd (omega arith)
or_digits_fuel (suc n) (suc m) zero b p q = refl
or_digits_fuel (suc n) (suc m) (suc a) b p q =
    omega (arith, or_digits_fuel n m (suc a / 2) (b / 2) (omega arith) (omega arith))

pub zero-bit_or : (b : ℕ) → bit_or 0 b ≡ b
zero-bit_or b = bit_or-bitwise 0 b

bit_or_step : (a b : ℕ) → bit_or a b ≡ bit_or (a / 2) (b / 2) * 2 + max (a % 2) (b % 2)
bit_or_step zero b = omega (arith, zero-bit_or b, zero-bit_or (b / 2))
bit_or_step (suc a) b = omega (
  arith,
  bit_or-bitwise (suc a) b,
  bit_or-bitwise (suc a / 2) (b / 2),
  or_digits_fuel a (suc a / 2) (suc a / 2) (b / 2) (omega arith) (omega arith),
)

bit_or-zero_fuel : (n a : ℕ) → a ≤ n → bit_or a 0 ≡ a
bit_or-zero_fuel n zero h = refl
bit_or-zero_fuel zero (suc a) h = absurd (omega arith)
bit_or-zero_fuel (suc n) (suc a) h =
    omega (arith, bit_or_step (suc a) 0, bit_or-zero_fuel n (suc a / 2) (omega arith))

double : (a k : ℕ) → a * 2 ^ suc k ≡ a * 2 ^ k * 2
double a k = omega (arith, ap (λ (t : ℕ). a * t) (pow-suc 2 k))

-- `x` is even, and its half has the bits above those of `b / 2`.
double_or : (x y b : ℕ) → x ≡ y * 2 → bit_or y (b / 2) ≡ y + b / 2 → bit_or x b ≡ x + b
double_or x y b e h =
    let half : x / 2 ≡ y = omega arith in
    let ih : bit_or (x / 2) (b / 2) ≡ y + b / 2 = rw half h in omega (arith, bit_or_step x b, ih)

-- A number below `2 ^ k` fills the low bits of a multiple of `2 ^ k`.
pub bit_or-eq-add : (k a b : ℕ) → b < 2 ^ k → bit_or (a * 2 ^ k) b ≡ a * 2 ^ k + b
bit_or-eq-add zero a zero h = bit_or-zero_fuel (a * 2 ^ 0) (a * 2 ^ 0) (omega arith) ∙ omega arith
bit_or-eq-add zero a (suc b) h = absurd (omega arith)
bit_or-eq-add (suc k) a b h =
    double_or (a * 2 ^ suc k) (a * 2 ^ k) b (double a k)
      (bit_or-eq-add k a (b / 2) (omega (arith, pow-suc 2 k)))

-- The same for a number that is known to be such a multiple.
pub bit_or-disjoint : (k a : ℕ) {x b : ℕ} → x ≡ a * 2 ^ k → b < 2 ^ k → bit_or x b ≡ x + b
bit_or-disjoint k a {x} {b} e h = rw e (bit_or-eq-add k a b h)

pub bit_or-zero : (a : ℕ) → bit_or a 0 ≡ a
bit_or-zero a = bit_or-zero_fuel a a (omega arith)
