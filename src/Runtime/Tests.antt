-- ===== src/Runtime/Tests.antt =====
-- Runs of the runtime at concrete values, and the theorems at inputs that meet their hypotheses.
use honey_potion.Base.{
  ℕ, ◌^◌, ◌/◌, ◌-◌, ◌+◌, pos, negsuc, ◌≡◌, ◌≢◌, ◌⊎◌, refl, ◌+ℤ◌, ◌-ℤ◌, ◌*ℤ◌, arith, IsInt, s64,
  true, false, some, List, ◌≤◌, replicate,
}
use honey_potion.Runtime.Values.{
  OpResult, Generic, no_message, zeroed, int, Returns, returned, string, span, atom_true,
}
use honey_potion.Runtime.Arith.{
  sum, subtract, subtract_integers, divide, divide_integers, multiply, multiply_integers,
  multiply_magnitudes, u_var,
}
use honey_potion.Runtime.Compare.{less_than, equals, greater_than}
use honey_potion.Runtime.Pool.{copy, fault, done}
use honey_potion.Runtime.Sums.{sum_exact, subtract_adds}
use honey_potion.Runtime.Quotients.{divide_opposite_sign}
use honey_potion.Runtime.Products.{multiply_exact}
use honey_potion.Runtime.Orders.{comparisons_trichotomy, holds}
use honey_potion.Runtime.Copies.{copy_never_copies}

abbrev fresh : OpResult
fresh = record { result_var = zeroed; exception = 0; exception_msg = no_message }

-- 7 - 2
subtract_run : subtract fresh (int (pos 7)) (int (pos 2)) ≡ returned fresh (int (pos 9))
unfolding subtract subtract_integers s64 ◌+ℤ◌
subtract_run = refl

-- 7 / -2
divide_run : divide fresh (int (pos 7)) (int (negsuc 1)) ≡ returned fresh (int (pos 4294967293))
unfolding divide divide_integers u_var s64 ◌*ℤ◌
divide_run = refl

multiply_run : multiply fresh (int (negsuc 6)) (int (pos 6)) ≡ returned fresh (int (negsuc 41))
unfolding multiply multiply_integers multiply_magnitudes u_var s64 ◌*ℤ◌
multiply_run = refl

less_than_run : less_than fresh (int (negsuc 6)) (int (pos 6)) ≡ returned fresh atom_true
unfolding less_than
less_than_run = refl

sum_exact_example :
    (IsInt (pos 3 +ℤ pos 4)
      × Returns (sum fresh (int (pos 3)) (int (pos 4))) (int (pos 3 +ℤ pos 4)))
    ⊎ (¬ IsInt (pos 3 +ℤ pos 4) × ((sum fresh (int (pos 3)) (int (pos 4))).exception ≡ 1))
sum_exact_example = sum_exact fresh (pos 3) (pos 4) (omega arith) (omega arith)

subtract_adds_example :
    (IsInt (pos 2 -ℤ pos 7)
      × Returns (subtract fresh (int (pos 7)) (int (pos 2))) (int (pos 7 +ℤ pos 2))
      × ((pos 2 ≡ pos 0) ⊎ (pos 7 +ℤ pos 2 ≢ pos 7 -ℤ pos 2)))
    ⊎ (¬ IsInt (pos 2 -ℤ pos 7) × ((subtract fresh (int (pos 7)) (int (pos 2))).exception ≡ 1))
subtract_adds_example = subtract_adds fresh (pos 7) (pos 2) (omega arith) (omega arith)

divide_opposite_sign_example :
    Returns (divide fresh (int (pos 7)) (int (negsuc 1))) (int (pos (2 ^ 32 - 7 / 2)))
divide_opposite_sign_example =
    divide_opposite_sign fresh (pos 7) (negsuc 1) (omega arith) (omega arith) (omega arith)
      (omega arith)

multiply_exact_example :
    (IsInt (negsuc 6 *ℤ pos 6)
      × Returns (multiply fresh (int (negsuc 6)) (int (pos 6))) (int (negsuc 6 *ℤ pos 6)))
    ⊎ (¬ IsInt (negsuc 6 *ℤ pos 6)
        × ((multiply fresh (int (negsuc 6)) (int (pos 6))).exception ≡ 1))
multiply_exact_example = multiply_exact fresh (negsuc 6) (pos 6) (omega arith) (omega arith)

comparisons_trichotomy_example :
    let lt = less_than fresh (int (pos 1)) (int (pos 2)) in
    let eq = equals fresh (int (pos 1)) (int (pos 2)) in
    let gt = greater_than fresh (int (pos 1)) (int (pos 2)) in
    (lt.exception + eq.exception + gt.exception ≡ 0)
    × (((2 ≤ 2) × (holds lt ≡ true) × (holds eq ≡ false) × (holds gt ≡ false))
        ⊎ ((pos 1 ≡ pos 2) × (holds lt ≡ false) × (holds eq ≡ true) × (holds gt ≡ false))
        ⊎ ((3 ≤ 1) × (holds lt ≡ false) × (holds eq ≡ false) × (holds gt ≡ true)))
comparisons_trichotomy_example = comparisons_trichotomy fresh (pos 1) (pos 2)

-- The three bytes from index 12 on.
abbrev abc : Generic
abc = record { type = string; value = span (pos 12) (pos 14) }

abbrev bytes : List ℕ
bytes = replicate 500 0

copy_never_copies_example :
    (copy fresh zeroed abc (some (pos 15)) true bytes ≡ fault)
    ⊎ ((r : OpResult) × (t : Generic) × (copy fresh zeroed abc (some (pos 15)) true bytes
          ≡ done r t bytes))
copy_never_copies_example = copy_never_copies fresh zeroed abc (some (pos 15)) true bytes refl

fifteen-ne-zero : pos 15 ≢ pos 0
fifteen-ne-zero = grind arith

str_len-pos : 1 ≤ 3
str_len-pos = omega arith
