-- ===== src/Generated/Tests/Pools.antt =====
-- The theorems on lists, tuples and strings at small inputs.
use honey_potion.Base.{
  ◌+ℤ◌, ℕ, inl, true, ◌≡◌, refl, if◌then◌else◌, pos, ◌-◌, ◌+◌, List, [], ◌∷◌, arith,
}
use honey_potion.Runtime.Values.{Generic, string, span, int}
use honey_potion.Generated.Machine.{Memory, State, ok, err, printk, match_error, all_found}
use honey_potion.Generated.Cells.{literal, match_bytes, cons, empty_list, is_list}
use honey_potion.Generated.Cells.Lists.{Represents, Ready, cons-Represents}
use honey_potion.Generated.Cells.Texts.{match_bytes-literal, same_text}
use honey_potion.Generated.Cells.Typing.{IsTyped, IsValue}
use honey_potion.Generated.Cells.Typing.Pairs.{with_pair, with_pair-IsTyped}
use honey_potion.Generated.Cells.Typing.Conses.{cons-IsTyped}
use honey_potion.Generated.Tuples.{foo_literal, bar}
use honey_potion.Generated.LinkedList.{linked_list_main}
use honey_potion.Generated.Tests.{memory, start}

-- An empty list is the last value on the heap.
abbrev one_list : Memory
one_list = record memory { heap = λ i. empty_list; heap_index = 1 }

abbrev state : State ℕ
state = record (start 5) { memory = one_list }

cons-Represents_example :
    (g : Generic) × (t : State ℕ) × (cons (int (pos 4)) state ≡ (ok g, t))
    × Represents t.memory g (int (pos 4) ∷ [])
    × Ready 3 t.memory (int (pos 4) ∷ [])
    × ((h : Generic) (ys : List Generic) → Represents one_list h ys → Represents t.memory h ys)
cons-Represents_example =
    cons-Represents state (int (pos 4)) [] 3 (omega arith, omega arith, omega arith, refl)

second_printed :
    (linked_list_main {M = ℕ} all_found (start 5)).1.output ≡ printk "%d" (pos 2 ∷ []) ∷ []
unfolding linked_list_main ◌+ℤ◌
second_printed = refl

-- The patterns "bar" and "foo" on the literal "foo".
match_bytes-literal_example :
    let r = literal {M = ℕ} foo_literal (start 5) in
    (r.0 ≡ ok (record { type = string; value = span (pos 0) (pos (0 + 4 - 1)) }))
    × (match_bytes (pos 0) 0 bar r.1
        ≡ (if same_text bar foo_literal then ok tt else err match_error, r.1))
match_bytes-literal_example =
    match_bytes-literal {M = ℕ} (start 5) foo_literal bar (omega arith) (omega arith) (omega arith)

memory-IsTyped : IsTyped memory
memory-IsTyped = (
  omega arith,
  omega arith,
  λ i inside. absurd (omega (arith, inside)),
  λ j inside. absurd (omega (arith, inside)),
)

-- The memory that holds {1, 2}.
abbrev tupled : Memory
tupled = with_pair memory (int (pos 1)) (int (pos 2))

tupled-IsTyped : IsTyped tupled
tupled-IsTyped =
    with_pair-IsTyped memory (int (pos 1)) (int (pos 2)) memory-IsTyped (omega arith) (omega arith)
      tt tt

one_list-IsTyped : IsTyped one_list
one_list-IsTyped =
    (omega arith, omega arith, λ i inside. absurd (omega (arith, inside)), λ j inside. inl refl)

cons-IsTyped_example :
    (g : Generic) × (t : State ℕ) × (cons (int (pos 4)) state ≡ (ok g, t))
    × (is_list g.type ≡ true)
    × (t.memory.heap (t.memory.heap_index - 1) ≡ g)
    × IsValue t.memory g
    × IsTyped t.memory
    × ((h : Generic) → IsValue one_list h → IsValue t.memory h)
cons-IsTyped_example =
    cons-IsTyped state (int (pos 4)) one_list-IsTyped (omega arith) (omega arith) (omega arith) tt
