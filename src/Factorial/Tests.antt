-- ===== src/Factorial/Tests.antt =====
-- The input of prog.c, with a write of another process in every round.
use honey_potion.Base.{
  ℕ, ◌*◌, ◌≡◌, refl, pos, beq_ℤ, if◌then◌else◌, s32, ◌-ℤ◌, ◌*ℤ◌, none, some, List, [], ◌∷◌, arith,
}
use honey_potion.Factorial.{FactEvent, Write, initial, run}
use honey_potion.Factorial.Result.{factorial, host, value_of, run-factorial}

abbrev zeroed : FactEvent
zeroed = record { result = pos 0; continuing = pos 0; next_factor = pos 0 }

abbrev rounds : ℕ → List Write
rounds n = record { pid = 5; reserved = none } ∷ record { pid = 7; reserved = some zeroed } ∷ []

three : value_of (run 3 7 rounds (host 1 3)) ≡ some (pos 6)
unfolding run s32 ◌-ℤ◌ ◌*ℤ◌
three = refl

-- The last round finds memory that does not end the loop.
abbrev stale : ℕ → List Write
stale n = record { pid = 7; reserved = some (record zeroed { continuing = pos 1 }) } ∷ []

goes_on : value_of (run 3 7 stale (host 1 3)) ≡ none
unfolding run s32 ◌-ℤ◌ ◌*ℤ◌
goes_on = refl

run-factorial_example :
    value_of (run 10 7 rounds initial)
    ≡ (if beq_ℤ zeroed.continuing (pos 0) then some (pos (1 * factorial 10)) else none)
run-factorial_example =
    run-factorial 9 7 1 rounds zeroed (λ i h. refl) refl (omega arith) (omega arith)
