-- ===== src/Runtime/Orders.antt =====
-- The comparisons against the order of the integers.
use honey_potion.Base.{ℤ, ◌≡◌, ◌⊎◌, ◌+◌, Bool, true, false, ◌<ℤ◌, arith, if◌then◌else◌}
use honey_potion.Runtime.Values.{OpResult, Generic, Returns, int, atom_true, atom_false}
use honey_potion.Runtime.Compare.{to_bool, values_are_equal, equals, greater_than, less_than}

-- What a generated test makes of a comparison's result.
abbrev pub holds : OpResult → Bool
holds r = to_bool r.result_var

-- On two integers the three comparisons raise nothing, and exactly one of them gives a value that
-- `to_bool` takes for true: the one for the order that the integers stand in.
pub comparisons_trichotomy :
    (result : OpResult) (a b : ℤ)
    → let lt = less_than result (int a) (int b) in
      let eq = equals result (int a) (int b) in
      let gt = greater_than result (int a) (int b) in
      (lt.exception + eq.exception + gt.exception ≡ 0)
      × (((a <ℤ b) × (holds lt ≡ true) × (holds eq ≡ false) × (holds gt ≡ false))
          ⊎ ((a ≡ b) × (holds lt ≡ false) × (holds eq ≡ true) × (holds gt ≡ false))
          ⊎ ((b <ℤ a) × (holds lt ≡ false) × (holds eq ≡ false) × (holds gt ≡ true)))
unfolding less_than equals greater_than to_bool
comparisons_trichotomy result a b = ground arith

-- `Equals` and `values_are_equal` agree wherever `Equals` raises nothing: on values of any types,
-- if it returns true the second function does, and the other way round.
pub equals-values_are_equal :
    (result : OpResult) (a b : Generic)
    → ((equals result a b).exception ≡ 1)
      ⊎ Returns (equals result a b) (if values_are_equal a b then atom_true else atom_false)
unfolding equals values_are_equal
equals-values_are_equal result a b = ground arith
