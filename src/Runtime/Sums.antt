-- ===== src/Runtime/Sums.antt =====
-- `Sum` and `Subtract` against integer arithmetic.
use honey_potion.Base.{ℤ, pos, ◌≡◌, ◌≢◌, ◌⊎◌, inl, inr, ◌+ℤ◌, ◌-ℤ◌, arith, IsLong, IsInt, s64}
use honey_potion.Runtime.Values.{OpResult, Returns, int}
use honey_potion.Runtime.Arith.{sum, sum_integers, subtract, subtract_integers}

-- On operands in the range of `int`, `Sum` returns the exact sum if that is in the range, and
-- raises an exception if it is not.
pub sum_exact :
    (result : OpResult) (a b : ℤ)
    → IsInt a
    → IsInt b
    → (IsInt (a +ℤ b) × Returns (sum result (int a) (int b)) (int (a +ℤ b)))
      ⊎ (¬ IsInt (a +ℤ b) × ((sum result (int a) (int b)).exception ≡ 1))
unfolding sum sum_integers ◌+ℤ◌ ◌-ℤ◌ s64
sum_exact result a b ha hb = ground arith

-- On any operands of type `long`, `Sum` either raises an exception or returns the exact sum: no
-- operation of it, guards included, gives a wrapped result.
pub sum_no_wrap :
    (result : OpResult) (a b : ℤ)
    → IsLong a
    → IsLong b
    → ((sum result (int a) (int b)).exception ≡ 1)
      ⊎ Returns (sum result (int a) (int b)) (int (a +ℤ b))
unfolding sum sum_integers ◌+ℤ◌ ◌-ℤ◌ s64
sum_no_wrap result a b ha hb = ground arith

subtract-guards :
    (result : OpResult) (a b : ℤ)
    → IsInt a
    → IsInt b
    → (IsInt (b -ℤ a) × Returns (subtract result (int a) (int b)) (int (a +ℤ b)))
      ⊎ (¬ IsInt (b -ℤ a) × ((subtract result (int a) (int b)).exception ≡ 1))
unfolding subtract subtract_integers ◌+ℤ◌ ◌-ℤ◌ s64
subtract-guards result a b ha hb = ground arith

sum_or_difference : (a b : ℤ) → (b ≡ pos 0) ⊎ (a +ℤ b ≢ a -ℤ b)
unfolding ◌+ℤ◌ ◌-ℤ◌
sum_or_difference a b = ground arith

-- On operands a and b in the range of `int`, `Subtract` returns their sum, which is not their
-- difference unless b is 0, if b - a is in that range, and raises an exception if b - a is not: its
-- guards are those of the difference the wrong way round.
pub subtract_adds :
    (result : OpResult) (a b : ℤ)
    → IsInt a
    → IsInt b
    → (IsInt (b -ℤ a)
        × Returns (subtract result (int a) (int b)) (int (a +ℤ b))
        × ((b ≡ pos 0) ⊎ (a +ℤ b ≢ a -ℤ b)))
      ⊎ (¬ IsInt (b -ℤ a) × ((subtract result (int a) (int b)).exception ≡ 1))
subtract_adds result a b ha hb = elim (subtract-guards result a b ha hb) [
  | inl (inside, returns) ↦ inl (inside, returns, sum_or_difference a b)
  | inr raises ↦ inr raises
]
