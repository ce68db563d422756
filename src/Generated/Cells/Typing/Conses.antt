-- ===== src/Generated/Cells/Typing/Conses.antt =====
-- Cells of lists in pools whose places all name values.
use honey_potion.Base.{◌+◌, ◌-◌, ◌<◌, ◌≤◌, ◌≡◌, refl, inl, inr, true, pos, arith}
use honey_potion.Runtime.Values.{Tag, list, Generic}
use honey_potion.Generated.Machine.{Memory, State, ok}
use honey_potion.Generated.Cells.{uncons, cons, list_at, empty_list, is_list}
use honey_potion.Generated.Cells.Lists.{with_cell, cons-with_cell, uncons_cell}
use honey_potion.Generated.Cells.Typing.{Spans, TypedAs, IsValue, IsTyped, grown, two_more}

list-Spans :
    (tag : Tag) (m : Memory) (g : Generic)
    → is_list tag ≡ true
    → ¬ (g ≡ empty_list)
    → TypedAs tag m g
    → Spans m g.value
list-Spans list m g e full (inl empty) = absurd (full empty)
list-Spans list m g e full (inr t) = t
list-Spans _ m g e full t = absurd (ground (arith, e))

with_cell-IsTyped :
    (m : Memory) (x : Generic)
    → IsTyped m
    → 1 ≤ m.heap_index
    → m.heap_index + 2 ≤ 100
    → m.tuple_pool_index + 2 ≤ 500
    → IsValue m x
    → IsTyped (with_cell m x)
with_cell-IsTyped m x typed some_value heap_room pool_room vx =
    let n = with_cell m x in
    two_more m n x (list_at (pos m.tuple_pool_index) (pos (m.tuple_pool_index + 1))) (omega arith)
      (omega arith) (λ j. ground arith) m.heap_index (m.heap_index - 1) (λ j. ground arith) typed
      heap_room pool_room (omega arith) (omega arith) (grown x.type m n x (omega arith) vx)
      (inr (m.tuple_pool_index, refl, omega arith))

module _ {M : Type 0} where
  -- If every place in use of the pools names a value, some value is on the heap, and there is room
  -- for two more, then `cons` of a value returns a list that is a value and is put last on the
  -- heap, every place in use still names a value, and what was a value stays one.
  pub cons-IsTyped :
      (s : State M) (x : Generic)
      → IsTyped s.memory
      → 1 ≤ s.memory.heap_index
      → s.memory.heap_index + 2 ≤ 100
      → s.memory.tuple_pool_index + 2 ≤ 500
      → IsValue s.memory x
      → (g : Generic) × (t : State M) × (cons x s ≡ (ok g, t))
        × (is_list g.type ≡ true)
        × (t.memory.heap (t.memory.heap_index - 1) ≡ g)
        × IsValue t.memory g
        × IsTyped t.memory
        × ((h : Generic) → IsValue s.memory h → IsValue t.memory h)
  cons-IsTyped s x typed some_value heap_room pool_room vx =
      let m = s.memory in
      let n = with_cell m x in
      let g = list_at (pos m.tuple_pool_index) (pos (m.tuple_pool_index + 1)) in
      let last : n.heap (m.heap_index + 1 + 1 - 1) ≡ g = ground arith in
      (
        g,
        record s { memory = n },
        cons-with_cell s x some_value heap_room pool_room,
        refl,
        last,
        inr (m.tuple_pool_index, refl, omega arith),
        with_cell-IsTyped m x typed some_value heap_room pool_room vx,
        λ h. grown h.type m n h (omega arith),
      )

  -- If every place in use of the pools names a value, then taking apart a list that is a value and
  -- is not empty raises nothing, changes nothing, and gives two values.
  uncons-IsValue :
      (s : State M) (g : Generic)
      → IsTyped s.memory
      → is_list g.type ≡ true
      → ¬ (g ≡ empty_list)
      → IsValue s.memory g
      → (h : Generic) × (r : Generic) × (uncons g s ≡ (ok (h, r), s))
        × IsValue s.memory h
        × IsValue s.memory r
  uncons-IsValue s g typed tag full v =
      let m = s.memory in
      let (bh, bt, places, values) = typed in
      let (i, at, inside) = list-Spans g.type m g tag full v in
      let a : m.tuple_pool i < m.heap_index = places i (omega arith) in
      let b : m.tuple_pool (i + 1) < m.heap_index = places (i + 1) inside in
      (
        m.heap (m.tuple_pool i),
        m.heap (m.tuple_pool (i + 1)),
        uncons_cell s g i tag at (omega arith) (omega arith) (omega arith),
        values (m.tuple_pool i) a,
        values (m.tuple_pool (i + 1)) b,
      )
