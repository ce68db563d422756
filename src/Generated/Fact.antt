-- ===== src/Generated/Fact.antt =====
-- examples/fact/lib/src/Fact.bpf.c: 6 plus the factorial of the system call's number, with the
-- recursion unrolled twice.
pub mod Fuel
use honey_potion.Base.{
  ◌+◌, ℕ, ◌==◌, ℤ, pos, Bool, true, false, not, ◌||◌, beq_ℤ, if◌then◌else◌, s32, ◌-ℤ◌, ◌*ℤ◌,
  to_unsigned, List, [], ◌∷◌,
}
use honey_potion.Runtime.Values.{Generic, OpResult, int, as_integer, as_start, zeroed, no_message}
use honey_potion.Runtime.Arith.{multiply, sum}
use honey_potion.Runtime.Compare.{is_atom}
use honey_potion.Generated.Machine.{
  State, Action, Found, ◌>>=◌, ◌>>◌, pure, fail, print, main, binary_operation, more_fuel,
  case_clause_error,
}
use honey_potion.Generated.Constants.{SyscallsEnterArgs, int_eq}

-- `op_result` when an operation is called: no exception and no message.
abbrev pub op_result : OpResult
op_result = record { result_var = zeroed; exception = 0; exception_msg = no_message }

-- The match of an atom that starts at `start` in the string pool.
abbrev pub matches_atom : Generic → ℤ → Bool
matches_atom g start = not (not (is_atom g.type) || not (beq_ℤ (as_start g.value) start))

module _ {M : Type 0} where
  -- The case on `x == 1` where no fuel is left. The clause of `false` is tried
  -- first; what follows its `raise` in the source is never reached.
  unfoldable pub fact_fuel1 : ℤ → Action M Generic
  fact_fuel1 x =
      if matches_atom (int_eq x (pos 1)) (pos 3)
      then fail more_fuel
      else if matches_atom (int_eq x (pos 1)) (pos 8)
      then pure (int (pos 1))
      else fail case_clause_error

  -- The case of the first call.
  unfoldable pub fact_fuel2 : ℤ → Action M Generic
  unfolding fact_fuel1 s32 ◌-ℤ◌ multiply
  fact_fuel2 x =
      if matches_atom (int_eq x (pos 1)) (pos 3)
      then (do
        rest ← fact_fuel1 (s32 (x -ℤ pos 1))
        binary_operation (multiply op_result (int x) rest))
      else if matches_atom (int_eq x (pos 1)) (pos 8)
      then pure (int (pos 1))
      else fail case_clause_error

  -- What follows the call: the sum and the line that is printed.
  unfoldable pub fact_end : Generic → Action M ℤ
  unfolding s32 ◌*ℤ◌ sum
  fact_end b = do
    c ← binary_operation (sum op_result (int (s32 (pos 3 *ℤ s32 (pos 2 *ℤ pos 1)))) b)
    print "%d" (as_integer c.value ∷ [])
    pure (pos 0)

  unfoldable pub fact_main : Found → SyscallsEnterArgs → State M → ℤ × State M
  unfolding main fact_fuel2 fact_end s32
  fact_main found ctx = main found (fact_fuel2 (s32 ctx.id) >>= fact_end)
