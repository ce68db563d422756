-- ===== src/Generated/Cells.antt =====
-- How generated code builds and takes apart lists, tuples and strings in the three pools: the
-- sequences of C that the compiler emits for `[a | b]`, `{a, b}`, a literal, and their patterns.
pub mod Lists
pub mod Texts
pub mod Typing
use honey_potion.Base.{
  ℕ, ◌+◌, ◌-◌, ◌^◌, ℤ, pos, negsuc, ◌+ℤ◌, u32, to_unsigned, Bool, true, false, not, ◌&&◌, ◌==◌, ltb,
  leb, ltb_ℤ, leb_ℤ, beq_ℤ, ◌||◌, if◌then◌else◌, List, [], ◌∷◌, length,
}
use honey_potion.Runtime.Values.{
  Tag, list, tuple, string, Generic, span, as_integer, as_start, string_pool_size,
}
use honey_potion.Runtime.Arith.{is_integer}
use honey_potion.Generated.Machine.{
  Memory, State, Action, Fault, ◌>>=◌, ◌>>◌, pure, fail, require, remember, put, put_all, heap_full,
  tuple_pool_full, string_pool_full, match_error, heap_match_error, tuple_match_error,
}

abbrev pub heap_size : ℕ
heap_size = 100

abbrev pub tuple_pool_size : ℕ
tuple_pool_size = 500

abbrev pub is_list : Tag → Bool
is_list list = true
is_list _ = false

abbrev pub is_tuple : Tag → Bool
is_tuple tuple = true
is_tuple _ = false

abbrev pub list_at : ℤ → ℤ → Generic
list_at start end = record { type = list; value = span start end }

abbrev pub empty_list : Generic
empty_list = list_at (negsuc 0) (negsuc 0)

abbrev pub tuple_at : ℤ → ℤ → Generic
tuple_at start end = record { type = tuple; value = span start end }

module _ {M : Type 0} where
  abbrev pub asking : {A : Type 0} → (Memory → Action M A) → Action M A
  asking f s = f s.memory s

  -- `(*heap)[(*heap_index)] = g; ++(*heap_index);` behind its guard.
  unfoldable pub push_heap : Generic → Action M (Unit {0})
  push_heap g = do
    asking λ m. require (ltb m.heap_index heap_size) heap_full
    remember λ m. record m { heap = put m.heap m.heap_index g; heap_index = m.heap_index + 1 }

  -- `(*tuple_pool)[(*tuple_pool_index)] = v; ++(*tuple_pool_index);` behind its guard.
  unfoldable pub push_tuple : ℕ → Action M (Unit {0})
  push_tuple v = do
    asking λ m. require (ltb m.tuple_pool_index tuple_pool_size) tuple_pool_full
    remember λ m. record m {
      tuple_pool = put m.tuple_pool m.tuple_pool_index v;
      tuple_pool_index = m.tuple_pool_index + 1;
    }

  -- `[elem | rest]`, where `rest` is the value that was put last on the heap: two places of the
  -- tuple pool name the heap's next place and the one before it.
  unfoldable pub cons : Generic → Action M Generic
  unfolding push_tuple push_heap
  cons elem = do
    asking λ m. push_tuple m.heap_index
    asking λ m. push_tuple (u32 (m.heap_index + (2 ^ 32 - 1)))
    asking λ m.
        let cell = list_at (pos (m.tuple_pool_index - 2)) (pos (m.tuple_pool_index - 1)) in
        (do push_heap elem; push_heap cell; pure cell)

  -- The value that the place `i` of the tuple pool names, or the exception for the pool or for
  -- the heap.
  unfoldable pub load_elem : Fault → Fault → ℤ → Action M Generic
  load_elem in_heap in_pool i =
      if ltb_ℤ i (pos tuple_pool_size) && leb_ℤ (pos 0) i
      then asking (λ m.
        let place = m.tuple_pool (to_unsigned i) in
        if ltb place heap_size then pure (m.heap place) else fail in_heap)
      else fail in_pool

  -- The pattern `[head | tail]`.
  unfoldable pub uncons : Generic → Action M (Generic × Generic)
  unfolding load_elem ◌+ℤ◌
  uncons g = if not (is_list g.type) then fail match_error else (do
    head ← load_elem match_error match_error (as_start g.value)
    tail ← load_elem match_error match_error (as_start g.value +ℤ pos 1)
    pure (head, tail))

  -- `{a, b}`: the two values on the heap, two places of the tuple pool that name them.
  unfoldable pub pair : Generic → Generic → Action M Generic
  pair a b = do
    asking λ m. require (ltb m.heap_index (heap_size - 0)) heap_full
    remember λ m. record m { heap = put m.heap (m.heap_index + 0) a }
    asking λ m. require (ltb m.tuple_pool_index (tuple_pool_size - 0)) tuple_pool_full
    remember
        λ m. record m { tuple_pool = put m.tuple_pool (m.tuple_pool_index + 0) (m.heap_index + 0) }
    asking λ m. require (ltb m.heap_index (heap_size - 1)) heap_full
    remember λ m. record m { heap = put m.heap (m.heap_index + 1) b }
    asking λ m. require (ltb m.tuple_pool_index (tuple_pool_size - 1)) tuple_pool_full
    remember
        λ m. record m { tuple_pool = put m.tuple_pool (m.tuple_pool_index + 1) (m.heap_index + 1) }
    remember
        λ m. record m { heap_index = m.heap_index + 2; tuple_pool_index = m.tuple_pool_index + 2 }
    asking λ m. pure (tuple_at (pos (m.tuple_pool_index - 2)) (pos (m.tuple_pool_index - 1)))

  -- The element `k` of the tuple `g`.
  unfoldable pub element : Generic → ℕ → Action M Generic
  unfolding load_elem ◌+ℤ◌
  element g k = load_elem heap_match_error tuple_match_error (as_start g.value +ℤ pos k)

  unfoldable pub require_tuple : Generic → Action M (Unit {0})
  require_tuple g = require (is_tuple g.type) match_error

  -- The pattern of the integer `n`.
  unfoldable pub require_integer : Generic → ℤ → Action M (Unit {0})
  require_integer g n =
      require (not (not (is_integer g.type) || not (beq_ℤ n (as_integer g.value)))) match_error

  -- A literal of the bytes `text` with a null byte at its end: the place that it takes in the
  -- string pool. The bytes are copied only where they fit.
  unfoldable pub literal : List ℕ → Action M Generic
  literal text = do
    asking λ m.
        require (ltb (u32 (u32 (m.string_pool_index + length text - 1) + 1)) string_pool_size)
          string_pool_full
    remember λ m.
        if ltb m.string_pool_index (string_pool_size - length text)
        then record m { string_pool = put_all m.string_pool m.string_pool_index text }
        else m
    asking λ m.
        let end = u32 (m.string_pool_index + length text - 1) in
        (do
          remember λ n. record n { string_pool_index = u32 (end + 1) }
          pure (record { type = string; value = span (pos m.string_pool_index) (pos end) }))

  -- A byte of a string pattern, compared only where it stands inside the pool.
  unfoldable pub match_byte : ℤ → ℕ → ℕ → Action M (Unit {0})
  unfolding ◌+ℤ◌
  match_byte start k c = asking λ m.
      if ltb_ℤ start (pos (string_pool_size - k)) && leb_ℤ (pos 0) start
      then require (c == m.string_pool (to_unsigned (start +ℤ pos k))) match_error
      else pure tt

  -- The bytes of a string pattern from the place `k` on.
  unfoldable pub match_bytes : ℤ → ℕ → List ℕ → Action M (Unit {0})
  unfolding match_byte
  match_bytes start k [] = pure tt
  match_bytes start k (c ∷ cs) = match_byte start k c >> match_bytes start (k + 1) cs
