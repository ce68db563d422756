-- ===== src/Runtime/Quotients.antt =====
-- `Divide` against integer division.
use native.Mathlib.Nat.{div-le_self}
use honey_potion.Base.{
  ℕ, ◌-◌, ◌+◌, ◌*◌, ◌<◌, ◌≤◌, ◌/◌, ◌%◌, ◌^◌, ℤ, pos, negsuc, ◌≡◌, ◌≢◌, ◌⊎◌, ◌≤ℤ◌, ◌<ℤ◌, ◌*ℤ◌, arith,
  IsInt, s64, pos_part, neg_part,
}
use honey_potion.Runtime.Values.{OpResult, Returns, Raises, int, int_min}
use honey_potion.Runtime.Values.{division_overflow}
use honey_potion.Runtime.Arith.{divide, divide_integers, u_var}

-- |a|
abbrev pub abs : ℤ → ℕ
abs a = pos_part a + neg_part a

pub abs-le : (a : ℤ) → IsInt a → abs a ≤ 2 ^ 31
abs-le a h = ground arith

pub u_var-eq-abs : (a : ℤ) → IsInt a → u_var a ≡ abs a
unfolding u_var ◌*ℤ◌ s64
u_var-eq-abs a h = ground arith

-- On operands in the range of `int` of which the second is not zero and has the sign of the
-- first (zero has both signs), `Divide` returns the quotient of the magnitudes, which is the
-- quotient of the operands, except for an exception at INT_MIN / -1.
pub divide_same_sign :
    (result : OpResult) (a b : ℤ)
    → IsInt a
    → IsInt b
    → ((a ≤ℤ pos 0) × (b <ℤ pos 0)) ⊎ ((pos 0 ≤ℤ a) × (pos 0 <ℤ b))
    → ((a ≡ int_min) × (b ≡ negsuc 0) × Raises (divide result (int a) (int b)) division_overflow)
      ⊎ Returns (divide result (int a) (int b)) (int (pos (abs a / abs b)))
unfolding divide divide_integers
divide_same_sign result a b ha hb s = ground (arith, u_var-eq-abs a, u_var-eq-abs b)

-- `q * -1` in `unsigned`.
wrap_negated : (q : ℕ) → q ≢ 0 → q < 2 ^ 32 → q * (2 ^ 32 - 1) % 2 ^ 32 ≡ 2 ^ 32 - q
wrap_negated q ne h = omega arith

-- On operands in the range of `int` of opposite signs with a quotient q of the magnitudes that is
-- not zero, `Divide` raises nothing and returns 2^32 - q, a positive number, and not -q.
pub divide_opposite_sign :
    (result : OpResult) (a b : ℤ)
    → IsInt a
    → IsInt b
    → ((a <ℤ pos 0) × (pos 0 <ℤ b)) ⊎ ((pos 0 <ℤ a) × (b <ℤ pos 0))
    → abs a / abs b ≢ 0
    → Returns (divide result (int a) (int b)) (int (pos (2 ^ 32 - abs a / abs b)))
unfolding divide divide_integers
divide_opposite_sign result a b ha hb s ne =
    let q : ℕ = abs a / abs b in
    let small : q < 2 ^ 32 = omega (arith, div-le_self (abs a) (abs b), abs-le a ha) in
    ground (arith, u_var-eq-abs a, u_var-eq-abs b, wrap_negated q)
