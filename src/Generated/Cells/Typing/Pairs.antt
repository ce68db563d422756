-- ===== src/Generated/Cells/Typing/Pairs.antt =====
-- Tuples of two values in pools whose places all name values.
use honey_potion.Base.{ℕ, ◌+◌, ◌<◌, ◌≤◌, ◌≡◌, refl, true, pos, ◌+ℤ◌, arith}
use honey_potion.Runtime.Values.{Tag, tuple, Generic}
use honey_potion.Generated.Machine.{Memory, State, ok, put, heap_match_error, tuple_match_error}
use honey_potion.Generated.Cells.{pair, element, load_elem, tuple_at, is_tuple}
use honey_potion.Generated.Cells.Lists.{load_elem_at}
use honey_potion.Generated.Cells.Typing.{Spans, TypedAs, IsValue, IsTyped, grown, two_more}

tuple-Spans :
    (tag : Tag) (m : Memory) (g : Generic) → is_tuple tag ≡ true → TypedAs tag m g → Spans m g.value
tuple-Spans tuple m g e t = t
tuple-Spans _ m g e t = absurd (ground (arith, e))

-- The memory after a tuple of two values is built.
abbrev pub with_pair : Memory → Generic → Generic → Memory
with_pair m a b = record m {
  heap = put (put m.heap (m.heap_index + 0) a) (m.heap_index + 1) b;
  heap_index = m.heap_index + 2;
  tuple_pool =
      put (put m.tuple_pool (m.tuple_pool_index + 0) (m.heap_index + 0)) (m.tuple_pool_index + 1)
        (m.heap_index + 1);
  tuple_pool_index = m.tuple_pool_index + 2;
}

pub with_pair-IsTyped :
    (m : Memory) (a b : Generic)
    → IsTyped m
    → m.heap_index + 2 ≤ 100
    → m.tuple_pool_index + 2 ≤ 500
    → IsValue m a
    → IsValue m b
    → IsTyped (with_pair m a b)
with_pair-IsTyped m a b typed heap_room pool_room va vb =
    let n = with_pair m a b in
    two_more m n a b refl refl (λ j. ground arith) m.heap_index (m.heap_index + 1)
      (λ j. ground arith) typed heap_room pool_room (omega arith) (omega arith)
      (grown a.type m n a (omega arith) va) (grown b.type m n b (omega arith) vb)

module _ {M : Type 0} where
  pair-with_pair :
      (s : State M) (a b : Generic)
      → s.memory.heap_index + 2 ≤ 100
      → s.memory.tuple_pool_index + 2 ≤ 500
      → pair a b s ≡ (
        ok (tuple_at (pos s.memory.tuple_pool_index) (pos (s.memory.tuple_pool_index + 1))),
        record s { memory = with_pair s.memory a b },
      )
  unfolding pair
  pair-with_pair s a b heap_room pool_room = ground arith

  -- If every place in use of the pools names a value, and there is room for two more, then `pair`
  -- of two values returns a tuple that is a value, every place in use still names a value, and
  -- what was a value stays one.
  pair-IsTyped :
      (s : State M) (a b : Generic)
      → IsTyped s.memory
      → s.memory.heap_index + 2 ≤ 100
      → s.memory.tuple_pool_index + 2 ≤ 500
      → IsValue s.memory a
      → IsValue s.memory b
      → (g : Generic) × (t : State M) × (pair a b s ≡ (ok g, t))
        × (is_tuple g.type ≡ true)
        × IsValue t.memory g
        × IsTyped t.memory
        × ((h : Generic) → IsValue s.memory h → IsValue t.memory h)
  pair-IsTyped s a b typed heap_room pool_room va vb =
      let m = s.memory in
      let n = with_pair m a b in
      (
        tuple_at (pos m.tuple_pool_index) (pos (m.tuple_pool_index + 1)),
        record s { memory = n },
        pair-with_pair s a b heap_room pool_room,
        refl,
        (m.tuple_pool_index, refl, omega arith),
        with_pair-IsTyped m a b typed heap_room pool_room va vb,
        λ h. grown h.type m n h (omega arith),
      )

  -- If every place in use of the pools names a value, then taking either element out of a tuple
  -- that is a value raises nothing, changes nothing, and gives a value.
  element-IsValue :
      (s : State M) (g : Generic) (k : ℕ)
      → k ≤ 1
      → IsTyped s.memory
      → is_tuple g.type ≡ true
      → IsValue s.memory g
      → (h : Generic) × (element g k s ≡ (ok h, s)) × IsValue s.memory h
  unfolding element load_elem ◌+ℤ◌
  element-IsValue s g k small typed tag v =
      let (i, at, inside) = tuple-Spans g.type s.memory g tag v in
      let (bh, bt, places, values) = typed in
      let m = s.memory in
      let there : i + k < m.tuple_pool_index = omega arith in
      let place : m.tuple_pool (i + k) < m.heap_index = places (i + k) there in
      let sum : pos i +ℤ pos k ≡ pos (i + k) = ground arith in
      (
        m.heap (m.tuple_pool (i + k)),
        rw (at, sum)
            (load_elem_at s heap_match_error tuple_match_error (i + k) (omega arith) (omega arith)),
        values (m.tuple_pool (i + k)) place,
      )
