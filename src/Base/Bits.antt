-- ===== src/Base/Bits.antt =====
-- The binary digits of `bit_or`, about which the libraries say nothing at variables.
use Prim.Native.Nat.{
  ℕ, zero, suc, ◌+◌, ◌*◌, ◌/◌, ◌%◌, ◌^◌, ◌≤◌, ◌<◌, max, bit_or, digits, bit_or-bitwise,
}
use mathlib.Core.Path.{◌≡◌, refl, ap, ◌∙◌}
use native.Mathlib.Nat.{two-pow-succ}
use native.Mathlib.Decide.{dec_le}
use native.Mathlib.Omega.{arith}
use honey_potion.Base.Checks.{◌==◌, if◌then◌else◌}
use mathlib.Core.Bool.{◌&&◌}

-- The digit `i` of `n`, and all digits below a number.
abbrev pub bit : ℕ → ℕ → ℕ
bit zero n = n % 2
bit (suc i) n = bit i (n / 2)

abbrev or_digits : ℕ → ℕ → ℕ → ℕ
or_digits n a b = digits (λ b. b) max n a b

or_digits_fuel : (n m a b : ℕ) → a ≤ n → a ≤ m → or_digits n a b ≡ or_digits m a b
or_digits_fuel zero zero a b p q = refl
or_digits_fuel zero (suc m) zero b p q = refl
or_digits_fuel zero (suc m) (suc a) b p q = absurd (omega arith)
or_digits_fuel (suc n) zero zero b p q = refl
or_digits_fuel (suc n) zero (suc a) b p q = absurd (omega arith)
or_digits_fuel (suc n) (suc m) zero b p q = refl
or_digits_fuel (suc n) (suc m) (suc a) b p q =
    omega (arith, or_digits_fuel n m (suc a / 2) (b / 2) (omega arith) (omega arith))

zero-bit_or : (b : ℕ) → bit_or 0 b ≡ b
zero-bit_or b = bit_or-bitwise 0 b

bit_or_step : (a b : ℕ) → bit_or a b ≡ bit_or (a / 2) (b / 2) * 2 + max (a % 2) (b % 2)
bit_or_step zero b = omega (arith, zero-bit_or b, zero-bit_or (b / 2))
bit_or_step (suc a) b = omega (
  arith,
  bit_or-bitwise (suc a) b,
  bit_or-bitwise (suc a / 2) (b / 2),
  or_digits_fuel a (suc a / 2) (suc a / 2) (b / 2) (omega arith) (omega arith),
)

-- A digit of `bit_or` is the larger of the two.
pub bit-bit_or : (i a b : ℕ) → bit i (bit_or a b) ≡ max (bit i a) (bit i b)
bit-bit_or zero a b = omega (arith, bit_or_step a b)
bit-bit_or (suc i) a b =
    let half : bit_or a b / 2 ≡ bit_or (a / 2) (b / 2) = omega (arith, bit_or_step a b) in
    ap (bit i) half ∙ bit-bit_or i (a / 2) (b / 2)

pub bit-le : (i a : ℕ) → bit i a ≤ 1
bit-le zero a = omega arith
bit-le (suc i) a = bit-le i (a / 2)

pub bit-zero : (i : ℕ) → bit i 0 ≡ 0
bit-zero zero = refl
bit-zero (suc i) = bit-zero i

-- The powers of two have one digit.
pub bit-pow : (i j : ℕ) → bit i (2 ^ j) ≡ (if i == j then 1 else 0)
bit-pow zero zero = refl
bit-pow zero (suc j) = grind (arith, two-pow-succ j)
bit-pow (suc i) zero = bit-zero i ∙ ground arith
bit-pow (suc i) (suc j) =
    let half : 2 ^ suc j / 2 ≡ 2 ^ j = omega (arith, two-pow-succ j) in
    ap (bit i) half ∙ (bit-pow i j ∙ ground arith)

bit_or_le : (n a b : ℕ) → a ≤ n → b ≤ n → (a ≤ bit_or a b) × (b ≤ bit_or a b)
bit_or_le zero a b ha hb = (omega arith, omega arith)
bit_or_le (suc n) a b ha hb =
    let half = bit_or_le n (a / 2) (b / 2) (omega arith) (omega arith) in
    (omega (arith, bit_or_step a b, half), omega (arith, bit_or_step a b, half))

-- `bit_or` is zero where both numbers are.
pub bit_or-is_zero : (a b : ℕ) → (bit_or a b == 0) ≡ ((a == 0) && (b == 0))
bit_or-is_zero a b = elim (dec_le (a + b) 0) [
  | yes none_set ↦
      let za : a ≡ 0 = omega arith in
      let zb : b ≡ 0 = omega arith in rw (za, zb) (ground (arith, zero-bit_or 0))
  | no some_set ↦ ground (arith, bit_or_le (a + b) a b (omega arith) (omega arith))
]

-- The low digits by division.
pub bit-div : (i n : ℕ) → i < 5 → n / 2 ^ i % 2 ≡ bit i n
bit-div zero n h = omega arith
bit-div (suc zero) n h = omega arith
bit-div (suc (suc zero)) n h = omega arith
bit-div (suc (suc (suc zero))) n h = omega arith
bit-div (suc (suc (suc (suc zero)))) n h = omega arith
bit-div (suc (suc (suc (suc (suc i))))) n h = absurd (omega arith)
