-- ===== src/Runtime/Arith.antt =====
-- The arithmetic of priv/c_boilerplates/runtime_functions.bpf.c. Operands are `long`; a division
-- by zero in a register gives 0 on this target, as `/` does here.
use honey_potion.Base.{
  ℕ, ◌-◌, ◌*◌, ◌/◌, ◌%◌, ◌^◌, ℤ, pos, negsuc, Bool, not, ◌&&◌, ◌||◌, ltb, ltb_ℤ, leb_ℤ, beq_ℤ,
  if◌then◌else◌, add_long, sub_long, mul_long, to_unsigned, true, false,
}
use honey_potion.Runtime.Values.{
  Tag, integer, double, Generic, OpResult, as_integer, int_max, int_min, raise, returned, int,
  float_subtraction, subtraction_overflow, subtraction_underflow, float_sum, sum_overflow,
  sum_underflow, unexpected_sum, float_division, division_by_zero, division_overflow,
  unexpected_divide, float_multiplication, multiplication_bounds, multiplication_overflow,
  multiplication_underflow, unexpected_multiply,
}

abbrev pub is_double : Tag → Bool
is_double double = true
is_double _ = false

abbrev pub is_integer : Tag → Bool
is_integer integer = true
is_integer _ = false

-- The branch of `Subtract` for two integers.
unfoldable pub subtract_integers : OpResult → ℤ → ℤ → OpResult
subtract_integers result v1 v2 =
    if ltb_ℤ v1 (pos 0) && ltb_ℤ (add_long int_max v1) v2
    then raise subtraction_overflow
    else if ltb_ℤ (pos 0) v1 && ltb_ℤ v2 (add_long int_min v1)
    then raise subtraction_underflow
    else returned result (int (add_long v1 v2))

-- `Subtract`
unfoldable pub subtract : OpResult → Generic → Generic → OpResult
subtract result var1 var2 =
    if is_double var1.type || is_double var2.type
    then raise float_subtraction
    else if is_integer var1.type && is_integer var2.type
    then subtract_integers result (as_integer var1.value) (as_integer var2.value)
    else raise unexpected_sum

-- The branch of `Sum` for two integers.
unfoldable pub sum_integers : OpResult → ℤ → ℤ → OpResult
sum_integers result v1 v2 =
    if ltb_ℤ (pos 0) v1 && ltb_ℤ (sub_long int_max v1) v2
    then raise sum_overflow
    else if ltb_ℤ v1 (pos 0) && ltb_ℤ v2 (sub_long int_min v1)
    then raise sum_underflow
    else returned result (int (add_long v1 v2))

-- `Sum`
unfoldable pub sum : OpResult → Generic → Generic → OpResult
sum result var1 var2 =
    if is_double var1.type || is_double var2.type
    then raise float_sum
    else if is_integer var1.type && is_integer var2.type
    then sum_integers result (as_integer var1.value) (as_integer var2.value)
    else raise unexpected_sum

-- `unsigned u_var = v < 0 ? v * -1 : v`
unfoldable pub u_var : ℤ → ℕ
u_var v = to_unsigned (if ltb_ℤ v (pos 0) then mul_long v (negsuc 0) else v)

-- The branch of `Divide` for two integers. `(u_var1 / u_var2) * -1` is `unsigned`.
unfoldable pub divide_integers : OpResult → ℤ → ℤ → OpResult
divide_integers result v1 v2 =
    if beq_ℤ v2 (pos 0)
    then raise division_by_zero
    else if beq_ℤ v1 int_min && beq_ℤ v2 (negsuc 0)
    then raise division_overflow
    else if leb_ℤ v1 (pos 0) && ltb_ℤ v2 (pos 0) || leb_ℤ (pos 0) v1 && ltb_ℤ (pos 0) v2
    then returned result (int (pos (u_var v1 / u_var v2)))
    else returned result (int (pos (u_var v1 / u_var v2 * (2 ^ 32 - 1) % 2 ^ 32)))

-- `Divide`
unfoldable pub divide : OpResult → Generic → Generic → OpResult
divide result var1 var2 =
    if is_double var1.type || is_double var2.type
    then raise float_division
    else if is_integer var1.type && is_integer var2.type
    then divide_integers result (as_integer var1.value) (as_integer var2.value)
    else raise unexpected_divide

-- The test on the two magnitudes in `Multiply`, and the product.
unfoldable pub multiply_magnitudes : OpResult → ℤ → ℤ → OpResult
multiply_magnitudes result v1 v2 =
    if ltb_ℤ (pos 0) v1 && ltb_ℤ (pos 0) v2 || ltb_ℤ v1 (pos 0) && ltb_ℤ v2 (pos 0)
    then if ltb (2147483647 / u_var v2) (u_var v1)
      then raise multiplication_overflow
      else returned result (int (mul_long v1 v2))
    else if ltb (2147483648 / u_var v2) (u_var v1)
    then raise multiplication_underflow
    else returned result (int (mul_long v1 v2))

-- The branch of `Multiply` for two integers.
unfoldable pub multiply_integers : OpResult → ℤ → ℤ → OpResult
multiply_integers result v1 v2 =
    if beq_ℤ v1 (pos 0) || beq_ℤ v2 (pos 0)
    then returned result (int (pos 0))
    else if beq_ℤ v1 int_min && not (beq_ℤ v2 (pos 1)) || beq_ℤ v2 int_min && not (beq_ℤ v1 (pos 1))
    then raise multiplication_bounds
    else multiply_magnitudes result v1 v2

-- `Multiply`
unfoldable pub multiply : OpResult → Generic → Generic → OpResult
multiply result var1 var2 =
    if is_double var1.type || is_double var2.type
    then raise float_multiplication
    else if is_integer var1.type && is_integer var2.type
    then multiply_integers result (as_integer var1.value) (as_integer var2.value)
    else raise unexpected_multiply
