-- ===== src/Generated/Cells/Typing.antt =====
-- Values whose places lie inside the pools: what is built has such values only, and taking a
-- pair apart never fails.
pub mod Pairs
pub mod Conses
use honey_potion.Base.{
  ℕ, ◌+◌, ◌-◌, ◌<◌, ◌≤◌, ◌≡◌, refl, sym, ◌∙◌, ◌⊎◌, inl, inr, true, ◌==◌, Bool-cases, pos, ◌+ℤ◌,
  arith,
}
use mathlib.Core.Path.{subst}
use honey_potion.Runtime.Values.{Tag, list, tuple, Generic, ElixirValue, span}
use honey_potion.Generated.Machine.{Memory, State, ok, put, heap_match_error, tuple_match_error}
use honey_potion.Generated.Cells.{
  uncons, pair, cons, element, load_elem, tuple_at, list_at, empty_list, is_list, is_tuple,
}
use honey_potion.Generated.Cells.Lists.{with_cell, cons-with_cell, load_elem_at, uncons_cell}

-- Two places of the tuple pool that are in use.
abbrev pub Spans : Memory → ElixirValue → Type 0
Spans m v = (i : ℕ) × (v ≡ span (pos i) (pos (i + 1))) × (i + 1 < m.tuple_pool_index)

abbrev pub TypedAs : Tag → Memory → Generic → Type 0
TypedAs list m g = (g ≡ empty_list) ⊎ Spans m g.value
TypedAs tuple m g = Spans m g.value
TypedAs _ m g = Unit {0}

abbrev pub IsValue : Memory → Generic → Type 0
IsValue m g = TypedAs g.type m g

-- Every place in use names a value.
abbrev pub IsTyped : Memory → Type 0
IsTyped m =
    (m.heap_index ≤ 100)
    × (m.tuple_pool_index ≤ 500)
    × ((i : ℕ) → i < m.tuple_pool_index → m.tuple_pool i < m.heap_index)
    × ((j : ℕ) → j < m.heap_index → IsValue m (m.heap j))

pub grown :
    (tag : Tag) (m n : Memory) (g : Generic)
    → m.tuple_pool_index ≤ n.tuple_pool_index
    → TypedAs tag m g
    → TypedAs tag n g
grown list m n g more (inl e) = inl e
grown list m n g more (inr (i, e, inside)) = inr (i, e, omega arith)
grown tuple m n g more (i, e, inside) = (i, e, omega arith)
grown _ m n g more t = tt

-- Two more values on the heap and two more places that name values.
module _ (m n : Memory) (a b : Generic) (heap_index : n.heap_index ≡ m.heap_index + 2)
    (tuple_pool_index : n.tuple_pool_index ≡ m.tuple_pool_index + 2)
    (heap : (j : ℕ) → n.heap j ≡ put (put m.heap m.heap_index a) (m.heap_index + 1) b j) (u v : ℕ)
    (tuple_pool : (j : ℕ)
      → n.tuple_pool j
        ≡ put (put m.tuple_pool m.tuple_pool_index u) (m.tuple_pool_index + 1) v j) where
  pub two_more :
      IsTyped m
      → m.heap_index + 2 ≤ 100
      → m.tuple_pool_index + 2 ≤ 500
      → u < m.heap_index + 2
      → v < m.heap_index + 2
      → IsValue n a
      → IsValue n b
      → IsTyped n
  two_more (bh, bt, places, values) heap_room pool_room first second va vb = (
    omega arith,
    omega arith,
    λ i inside. ground (arith, inside, tuple_pool i, places i),
    λ j inside. elim (Bool-cases (m.heap_index + 1 == j)) [
      | inl e ↦ subst (IsValue n) (sym (heap j ∙ rw e refl)) vb
      | inr not_b ↦ elim (Bool-cases (m.heap_index == j)) [
        | inl e ↦ subst (IsValue n) (sym (heap j ∙ rw (not_b, e) refl)) va
        | inr not_a ↦
            let old : j < m.heap_index = ground (arith, inside, not_a, not_b) in
            subst (IsValue n) (sym (heap j ∙ rw (not_b, not_a) refl))
              (grown (m.heap j).type m n (m.heap j) (omega arith) (values j old))
      ]
    ],
  )
