-- ===== src/Generated/Cells/Lists.antt =====
-- The cells in the pools stand for lists: `cons` and `uncons` are those of lists.
use honey_potion.Base.{
  ℕ, ◌+◌, ◌-◌, ◌*◌, ◌<◌, ◌≤◌, ◌≡◌, refl, ◌∙◌, true, pos, ◌+ℤ◌, List, [], ◌∷◌, arith,
}
use honey_potion.Runtime.Values.{Generic, span}
use honey_potion.Generated.Machine.{
  Memory, State, Fault, ok, err, bind_ok, pure, ◌>>=◌, put, match_error,
}
use honey_potion.Generated.Cells.{
  list_at, is_list, empty_list, push_heap, push_tuple, cons, load_elem, uncons,
}

-- The indices are inside the pools.
abbrev pub IsBounded : Memory → Type 0
IsBounded m = (m.heap_index ≤ 100) × (m.tuple_pool_index ≤ 500)

-- The value `g` stands for the list `xs`: a cell that starts at the place `i` of the tuple pool
-- names the head `a` and the rest `b` on the heap.
abbrev pub Represents : Memory → Generic → List Generic → Type 0
Represents m g [] = g ≡ empty_list
Represents m g (x ∷ xs) =
    (i : ℕ) × (g ≡ list_at (pos i) (pos (i + 1)))
    × (i + 1 < m.tuple_pool_index)
    × (m.tuple_pool i < m.heap_index)
    × (m.tuple_pool (i + 1) < m.heap_index)
    × (m.heap (m.tuple_pool i) ≡ x)
    × Represents m (m.heap (m.tuple_pool (i + 1))) xs

-- What stands below the indices is still there.
abbrev pub Extends : Memory → Memory → Type 0
Extends m n =
    (m.heap_index ≤ n.heap_index)
    × (m.tuple_pool_index ≤ n.tuple_pool_index)
    × ((j : ℕ) → j < m.heap_index → n.heap j ≡ m.heap j)
    × ((j : ℕ) → j < m.tuple_pool_index → n.tuple_pool j ≡ m.tuple_pool j)

pub Represents-Extends :
    (m n : Memory) (g : Generic) (xs : List Generic)
    → Extends m n
    → Represents m g xs
    → Represents n g xs
Represents-Extends m n g [] e r = r
Represents-Extends m n g (x ∷ xs) e (i, at, inside, a, b, head, rest) =
    let low : n.tuple_pool i ≡ m.tuple_pool i = e.3 i (omega arith) in
    let high : n.tuple_pool (i + 1) ≡ m.tuple_pool (i + 1) = e.3 (i + 1) inside in
    let tail : n.heap (n.tuple_pool (i + 1)) ≡ m.heap (m.tuple_pool (i + 1)) =
      rw high (e.2 (m.tuple_pool (i + 1)) b) in
    (
      i,
      at,
      omega (arith, inside, e.1),
      rw low (omega (arith, a, e.0)),
      rw high (omega (arith, b, e.0)),
      rw low (e.2 (m.tuple_pool i) a ∙ head),
      rw tail (Represents-Extends m n (m.heap (m.tuple_pool (i + 1))) xs e rest),
    )

-- The memory after a cell is built.
abbrev pub with_cell : Memory → Generic → Memory
with_cell m x = record m {
  heap =
      put (put m.heap m.heap_index x) (m.heap_index + 1)
        (list_at (pos m.tuple_pool_index) (pos (m.tuple_pool_index + 1)));
  heap_index = m.heap_index + 1 + 1;
  tuple_pool =
      put (put m.tuple_pool m.tuple_pool_index m.heap_index) (m.tuple_pool_index + 1)
        (m.heap_index - 1);
  tuple_pool_index = m.tuple_pool_index + 1 + 1;
}

with_cell-Extends : (m : Memory) (x : Generic) → Extends m (with_cell m x)
with_cell-Extends m x =
    (omega arith, omega arith, λ j h. ground (arith, h), λ j h. ground (arith, h))

-- The value that was put last on the heap stands for `xs`, and there is room for `n` cells more.
abbrev pub Ready : ℕ → Memory → List Generic → Type 0
Ready n m xs =
    (1 ≤ m.heap_index)
    × (m.heap_index + n * 2 ≤ 100)
    × (m.tuple_pool_index + n * 2 ≤ 500)
    × Represents m (m.heap (m.heap_index - 1)) xs

with_cell-Represents :
    (m : Memory) (x : Generic) (xs : List Generic)
    → 1 ≤ m.heap_index
    → Represents m (m.heap (m.heap_index - 1)) xs
    → Represents
        (with_cell m x)
        (list_at (pos m.tuple_pool_index) (pos (m.tuple_pool_index + 1)))
        (x ∷ xs)
with_cell-Represents m x xs some_value rest =
    let n = with_cell m x in
    let head : n.tuple_pool m.tuple_pool_index ≡ m.heap_index = ground arith in
    let tail : n.tuple_pool (m.tuple_pool_index + 1) ≡ m.heap_index - 1 = ground arith in
    let first : n.heap m.heap_index ≡ x = ground arith in
    let before : n.heap (m.heap_index - 1) ≡ m.heap (m.heap_index - 1) =
      ground (arith, some_value) in
    (
      m.tuple_pool_index,
      refl,
      omega arith,
      rw head (omega arith),
      rw tail (omega arith),
      rw head first,
      rw tail (rw before (Represents-Extends m n _ xs (with_cell-Extends m x) rest)),
    )

module _ {M : Type 0} where
  pub cons-with_cell :
      (s : State M) (x : Generic)
      → 1 ≤ s.memory.heap_index
      → s.memory.heap_index + 2 ≤ 100
      → s.memory.tuple_pool_index + 2 ≤ 500
      → cons x s ≡ (
        ok (list_at (pos s.memory.tuple_pool_index) (pos (s.memory.tuple_pool_index + 1))),
        record s { memory = with_cell s.memory x },
      )
  unfolding cons push_heap push_tuple
  cons-with_cell s x some_value heap_room pool_room = ground arith

  -- With room for `n + 1` cells, `cons` before the value that was put last on the heap returns a
  -- value for the longer list, which is put last in turn; every value for a list stays one, and
  -- there is room for `n` cells.
  pub cons-Represents :
      (s : State M) (x : Generic) (xs : List Generic) (n : ℕ)
      → Ready (n + 1) s.memory xs
      → (g : Generic) × (t : State M) × (cons x s ≡ (ok g, t))
        × Represents t.memory g (x ∷ xs)
        × Ready n t.memory (x ∷ xs)
        × ((h : Generic) (ys : List Generic) → Represents s.memory h ys → Represents t.memory h ys)
  cons-Represents s x xs n (some_value, heap_room, pool_room, rest) =
      let m = s.memory in
      let g = list_at (pos m.tuple_pool_index) (pos (m.tuple_pool_index + 1)) in
      let here = with_cell-Represents m x xs some_value rest in
      let last : (with_cell m x).heap (m.heap_index + 1 + 1 - 1) ≡ g = ground arith in
      (
        g,
        record s { memory = with_cell m x },
        cons-with_cell s x some_value (omega arith) (omega arith),
        here,
        (omega arith, omega arith, omega arith, rw last here),
        λ h ys. Represents-Extends m (with_cell m x) h ys (with_cell-Extends m x),
      )

  pub load_elem_at :
      (s : State M) (e f : Fault) (i : ℕ)
      → i < 500
      → s.memory.tuple_pool i < 100
      → load_elem e f (pos i) s ≡ (ok (s.memory.heap (s.memory.tuple_pool i)), s)
  unfolding load_elem
  load_elem_at s e f i inside place = ground arith

  pub uncons_cell :
      (s : State M) (g : Generic) (i : ℕ)
      → is_list g.type ≡ true
      → g.value ≡ span (pos i) (pos (i + 1))
      → i + 1 < 500
      → s.memory.tuple_pool i < 100
      → s.memory.tuple_pool (i + 1) < 100
      → let m = s.memory in
        uncons g s ≡ (ok (m.heap (m.tuple_pool i), m.heap (m.tuple_pool (i + 1))), s)
  unfolding uncons load_elem ◌+ℤ◌
  uncons_cell s g i tag at inside a b =
      let x = s.memory.heap (s.memory.tuple_pool i) in
      let one = load_elem_at s match_error match_error i (omega arith) a in
      let two = load_elem_at s match_error match_error (i + 1) inside b in
      let next : pos i +ℤ pos 1 ≡ pos (i + 1) = ground arith in
      rw (tag, at, uncons)
        (bind_ok (load_elem match_error match_error (pos i))
            (λ y. load_elem match_error match_error (pos i +ℤ pos 1) >>= λ z. pure (y, z)) one
          ∙ rw next
              (bind_ok (load_elem match_error match_error (pos (i + 1))) (λ z. pure (x, z)) two))

  -- `uncons` of a value for a list that is not empty gives back its head and a value for its
  -- tail, and changes nothing.
  uncons-Represents :
      (s : State M) (g x : Generic) (xs : List Generic)
      → IsBounded s.memory
      → Represents s.memory g (x ∷ xs)
      → (h : Generic) × (uncons g s ≡ (ok (x, h), s)) × Represents s.memory h xs
  uncons-Represents s g x xs bounded (i, at, inside, a, b, head, rest) =
      let m = s.memory in
      (
        m.heap (m.tuple_pool (i + 1)),
        uncons_cell s g i (rw at refl) (rw at refl) (omega arith) (omega arith) (omega arith)
            ∙ rw head refl,
        rest,
      )

  -- `uncons` of a value for the empty list raises.
  pub uncons_empty : (s : State M) → uncons empty_list s ≡ (err match_error, s)
  unfolding uncons load_elem
  uncons_empty s = refl
