-- ===== src/Runtime/Products.antt =====
-- `Multiply` against integer multiplication.
use honey_potion.Base.{
  ℕ, ◌*◌, ◌/◌, ◌<◌, ℤ, pos, negsuc, ◌≡◌, ◌≢◌, ◌⊎◌, inl, inr, ◌↔◌, ◌<ℤ◌, ◌*ℤ◌, arith, IsInt, s64-eq,
  pos_part, neg_part,
}
use honey_potion.Runtime.Values.{OpResult, Returns, int, int_min}
use honey_potion.Runtime.Arith.{multiply, multiply_integers, multiply_magnitudes}
use honey_potion.Runtime.Quotients.{abs, u_var-eq-abs}

-- The guard `u_var1 > limit / u_var2` asks whether the product of the magnitudes passes the limit.
guard_iff : (limit p q : ℕ) → q ≢ 0 → (limit / q < p) ↔ (limit < p * q)
guard_iff limit p q ne = (λ h. grind arith, λ h. grind arith)

-- The parts of a product, by the magnitudes of its operands.
mul_same_parts :
    (a b : ℤ)
    → ((pos 0 <ℤ a) × (pos 0 <ℤ b)) ⊎ ((a <ℤ pos 0) × (b <ℤ pos 0))
    → (pos_part (a *ℤ b) ≡ abs a * abs b) × (neg_part (a *ℤ b) ≡ 0)
unfolding ◌*ℤ◌
mul_same_parts (pos p) (pos q) s = grind arith
mul_same_parts (pos p) (negsuc q) s = absurd (omega arith)
mul_same_parts (negsuc p) (pos q) s = absurd (omega arith)
mul_same_parts (negsuc p) (negsuc q) s = grind arith

mul_opposite_parts :
    (a b : ℤ)
    → ((a <ℤ pos 0) × (pos 0 <ℤ b)) ⊎ ((pos 0 <ℤ a) × (b <ℤ pos 0))
    → (pos_part (a *ℤ b) ≡ 0) × (neg_part (a *ℤ b) ≡ abs a * abs b)
unfolding ◌*ℤ◌
mul_opposite_parts (pos p) (pos q) s = absurd (omega arith)
mul_opposite_parts (pos p) (negsuc q) s = grind arith
mul_opposite_parts (negsuc p) (pos q) s = grind arith
mul_opposite_parts (negsuc p) (negsuc q) s = absurd (omega arith)

abbrev IsExact : ℤ → ℤ → OpResult → Type 0
IsExact a b r = (IsInt (a *ℤ b) × Returns r (int (a *ℤ b))) ⊎ (¬ IsInt (a *ℤ b) × (r.exception ≡ 1))

magnitudes_same :
    (result : OpResult) (a b : ℤ)
    → IsInt a
    → IsInt b
    → ((pos 0 <ℤ a) × (pos 0 <ℤ b)) ⊎ ((a <ℤ pos 0) × (b <ℤ pos 0))
    → IsExact a b (multiply_magnitudes result a b)
unfolding multiply_magnitudes
magnitudes_same result a b ha hb s = ground (
  arith,
  guard_iff 2147483647 (abs a) (abs b),
  u_var-eq-abs a,
  u_var-eq-abs b,
  mul_same_parts a b,
  s64-eq (a *ℤ b),
)

magnitudes_opposite :
    (result : OpResult) (a b : ℤ)
    → IsInt a
    → IsInt b
    → ((a <ℤ pos 0) × (pos 0 <ℤ b)) ⊎ ((pos 0 <ℤ a) × (b <ℤ pos 0))
    → IsExact a b (multiply_magnitudes result a b)
unfolding multiply_magnitudes
magnitudes_opposite result a b ha hb s = ground (
  arith,
  guard_iff 2147483648 (abs a) (abs b),
  u_var-eq-abs a,
  u_var-eq-abs b,
  mul_opposite_parts a b,
  s64-eq (a *ℤ b),
)

abbrev Same : ℤ → ℤ → Type 0
Same a b = ((pos 0 <ℤ a) × (pos 0 <ℤ b)) ⊎ ((a <ℤ pos 0) × (b <ℤ pos 0))

abbrev Opposite : ℤ → ℤ → Type 0
Opposite a b = ((a <ℤ pos 0) × (pos 0 <ℤ b)) ⊎ ((pos 0 <ℤ a) × (b <ℤ pos 0))

sign_cases : (a b : ℤ) → ((a ≡ pos 0) ⊎ (b ≡ pos 0)) ⊎ (Same a b ⊎ Opposite a b)
sign_cases a b = ground arith

zero_factor :
    (result : OpResult) (a b : ℤ)
    → (a ≡ pos 0) ⊎ (b ≡ pos 0)
    → IsExact a b (multiply_integers result a b)
unfolding multiply_integers ◌*ℤ◌
zero_factor result a b z = ground arith

-- INT_MIN times anything but 0 and 1 is out of range.
min_product :
    (a b : ℤ)
    → Same a b ⊎ Opposite a b
    → ((a ≡ int_min) × (b ≢ pos 1)) ⊎ ((b ≡ int_min) × (a ≢ pos 1))
    → ¬ IsInt (a *ℤ b)
unfolding ◌*ℤ◌
min_product a b s h k = ground arith

integers-IsExact :
    (result : OpResult) (a b : ℤ)
    → IsInt a
    → IsInt b
    → Same a b ⊎ Opposite a b
    → IsExact a b (multiply_magnitudes result a b)
    → IsExact a b (multiply_integers result a b)
unfolding multiply_integers
integers-IsExact result a b ha hb s m = ground (arith, min_product a b)

-- On operands in the range of `int`, `Multiply` returns the exact product if that is in the range,
-- and raises an exception if it is not.
pub multiply_exact :
    (result : OpResult) (a b : ℤ)
    → IsInt a
    → IsInt b
    → (IsInt (a *ℤ b) × Returns (multiply result (int a) (int b)) (int (a *ℤ b)))
      ⊎ (¬ IsInt (a *ℤ b) × ((multiply result (int a) (int b)).exception ≡ 1))
unfolding multiply
multiply_exact result a b ha hb = elim (sign_cases a b) [
  | inl z ↦ zero_factor result a b z
  | inr (inl s) ↦ integers-IsExact result a b ha hb (inl s) (magnitudes_same result a b ha hb s)
  | inr (inr s) ↦ integers-IsExact result a b ha hb (inr s) (magnitudes_opposite result a b ha hb s)
]
