-- ===== src/Generated/Fact/Fuel.antt =====
-- Two levels of unrolling compute the factorials of 1 and 2 only.
use honey_potion.Base.{
  ◌+◌, ℕ, ◌≡◌, ◌≢◌, refl, inl, inr, Bool-cases, ℤ, pos, beq_ℤ, [], ◌∷◌, s32, ◌-ℤ◌, ◌*ℤ◌,
  if◌then◌else◌, arith, IsInt, s64, ◌+ℤ◌, ◌∙◌, ◌<◌, ap,
}
use honey_potion.Runtime.Values.{int}
use honey_potion.Factorial.Result.{factorial}
use honey_potion.Runtime.Arith.{
  multiply, sum, multiply_integers, multiply_magnitudes, sum_integers, u_var,
}
use honey_potion.Generated.Machine.{
  State, ok, err, bind_ok, bind_err, ◌>>=◌, Fault, printk, Line, caught, more_fuel, catch,
  all_found,
}
use honey_potion.Generated.Boot.{fresh, main_complete}
use honey_potion.Generated.Access.{beq_ℤ_iff, s32-IsInt}
use honey_potion.Generated.Constants.{SyscallsEnterArgs}
use honey_potion.Generated.Fact.{fact_fuel1, fact_fuel2, fact_end, fact_main}

abbrev pub fact_line : ℤ → Line
fact_line x =
    if beq_ℤ x (pos 1)
    then printk "%d" (pos (6 + factorial 1) ∷ [])
    else if beq_ℤ x (pos 2)
    then printk "%d" (pos (6 + factorial 2) ∷ [])
    else caught more_fuel

module _ {M : Type 0} where
  fact_fuel2_one : (s : State M) → fact_fuel2 (pos 1) s ≡ (ok (int (pos 1)), s)
  unfolding fact_fuel2
  fact_fuel2_one s = refl

  fact_fuel2_two : (s : State M) → fact_fuel2 (pos 2) s ≡ (ok (int (pos 2)), s)
  unfolding fact_fuel2 fact_fuel1 s32 ◌-ℤ◌ multiply multiply_integers multiply_magnitudes u_var s64
      ◌*ℤ◌
  fact_fuel2_two s = refl

  fact_fuel2_other :
      (s : State M) (x : ℤ) → IsInt x → x ≢ pos 1 → x ≢ pos 2 → fact_fuel2 x s ≡ (err more_fuel, s)
  unfolding fact_fuel2 fact_fuel1 s32 ◌-ℤ◌
  fact_fuel2_other s x range one two = ground arith

  -- The program's end in the state `s`, with one line more.
  abbrev ended : State M → Line → ℤ × State M
  ended s line = (pos 0, record s { memory = fresh s.memory; output = line ∷ s.output })

  -- The state in which the user code starts.
  abbrev started : State M → State M
  started s = record s { memory = fresh s.memory }

  fact_main_returns :
      (s : State M) (ctx : SyscallsEnterArgs) (n : ℕ)
      → fact_fuel2 (s32 ctx.id) (started s) ≡ (ok (int (pos n)), started s)
      → n < 100
      → fact_main all_found ctx s ≡ ended s (printk "%d" (pos (6 + n) ∷ []))
  unfolding fact_main fact_end sum sum_integers s64 ◌+ℤ◌ ◌-ℤ◌ catch
  fact_main_returns s ctx n e small =
      main_complete all_found (fact_fuel2 (s32 ctx.id) >>= fact_end) s refl
      ∙ ap catch (bind_ok (fact_fuel2 (s32 ctx.id)) fact_end e)
      ∙ ground arith

  fact_main_raises :
      (s : State M) (ctx : SyscallsEnterArgs) (f : Fault)
      → fact_fuel2 (s32 ctx.id) (started s) ≡ (err f, started s)
      → fact_main all_found ctx s ≡ ended s (caught f)
  unfolding fact_main fact_end catch
  fact_main_raises s ctx f e =
      main_complete all_found (fact_fuel2 (s32 ctx.id) >>= fact_end) s refl
      ∙ ap catch (bind_err (fact_fuel2 (s32 ctx.id)) fact_end e)

  -- Whatever the state, the program ends: for the numbers 1 and 2 it prints 6 plus the factorial,
  -- for every other one the message that it has no fuel, and it returns 0 and leaves its maps.
  pub fact_main-fact_line :
      (s : State M) (ctx : SyscallsEnterArgs)
      → fact_main all_found ctx s
        ≡ (pos 0, record s { memory = fresh s.memory; output = fact_line (s32 ctx.id) ∷ s.output })
  fact_main-fact_line s ctx = elim (Bool-cases (beq_ℤ (s32 ctx.id) (pos 1))) [
    | inl one ↦
        let e = (beq_ℤ_iff (s32 ctx.id) (pos 1)).0 one in
        fact_main_returns s ctx 1 (rw e (fact_fuel2_one (started s))) (omega arith) ∙ rw one refl
    | inr not_one ↦ elim (Bool-cases (beq_ℤ (s32 ctx.id) (pos 2))) [
      | inl two ↦
          let e = (beq_ℤ_iff (s32 ctx.id) (pos 2)).0 two in
          fact_main_returns s ctx 2 (rw e (fact_fuel2_two (started s))) (omega arith)
          ∙ rw (not_one, two) refl
      | inr not_two ↦
          fact_main_raises s ctx more_fuel (
            fact_fuel2_other (started s) (s32 ctx.id) (s32-IsInt ctx.id)
              (λ e. ground (arith, e, not_one)) (λ e. ground (arith, e, not_two)))
          ∙ rw (not_one, not_two) refl
    ]
  ]
