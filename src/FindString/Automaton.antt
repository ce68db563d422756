-- ===== src/FindString/Automaton.antt =====
-- benchmarks/findstring/prog.c: the automaton of Aho and Corasick that `fillMapStrings` builds from
-- the lines of a file, and the rows that it writes to `goto_func`.
pub mod Link
pub mod Fill
pub mod Names
pub mod Insert
pub mod Words
pub mod Lines
pub mod Exact
pub mod Rows
pub mod Kernel
mod Tests
use Prim.Native.Nat.{bit_or}
use honey_potion.Base.{
  ℕ, zero, suc, ◌+◌, ◌-◌, ◌*◌, ◌^◌, pos, Bool, true, false, ◌&&◌, ◌||◌, Option, none, some, List,
  [], ◌∷◌, ◌++◌, length, ltb, leb, ◌==◌, if◌then◌else◌, u32,
}
use honey_potion.Bpf.Array.{ArrayMap}
use honey_potion.FindString.{Word, GotoResult, map_strings_size, maxc}
use honey_potion.FindString.Queue.{Queue, create_queue, is_empty, enqueue, dequeue}

-- SIZETEXT, MAXSTATES, and `MAXSTATES * MAXC`, whose macro has no parentheses: 5 * 10 + 1 * 26.
abbrev pub size_text : ℕ
size_text = 10

abbrev pub max_states : ℕ
max_states = map_strings_size * size_text + 1

abbrev pub queue_capacity : ℕ
queue_capacity = map_strings_size * size_text + 1 * maxc

-- An access outside the automaton or past `text`, a character that is not a small letter, a map
-- that refuses an update, or a loop that has used up its fuel.
pub data Fault : Type 0 where
  outside no_update out_of_fuel : Fault
  invalid_character : ℕ → Fault

pub data Result (A : Type 0) : Type 0 where
  ok : A → Result A
  err : Fault → Result A

infixl 5 ◌>>=◌
abbrev pub ◌>>=◌ : {A B : Type 0} → Result A → (A → Result B) → Result B
ok a >>= f = f a
err e >>= f = err e

-- `struct aho_c_automata` is one block of `int`s, each as its 32-bit pattern: `out` from 0,
-- `failure` from 51, `go` from 102 and `states` at 1428. An index past a row reads the next one.
abbrev pub Memory : Type 0
Memory = ℕ → ℕ

abbrev pub ints : ℕ
ints = max_states + max_states + max_states * maxc + 1

-- The place of the element `i`, an `int`, of an array of elements of `width` ints.
abbrev pub place : ℕ → ℕ → ℕ → Option ℕ
place base width i =
    if ltb i (2 ^ 31)
    then (if ltb (base + width * i) ints then some (base + width * i) else none)
    else if leb (width * (2 ^ 32 - i)) base
    then some (base - width * (2 ^ 32 - i))
    else none

abbrev pub out_at : ℕ → Option ℕ
out_at s = place 0 1 s

abbrev pub failure_at : ℕ → Option ℕ
failure_at s = place max_states 1 s

abbrev pub go_at : ℕ → ℕ → Option ℕ
go_at s ch = place (max_states + max_states + ch) maxc s

abbrev pub load : Memory → Option ℕ → Result ℕ
load m none = err outside
load m (some a) = ok (m a)

abbrev pub written : Memory → ℕ → ℕ → Memory
written m a v i = if i == a then v else m i

abbrev pub store : Memory → Option ℕ → ℕ → Result Memory
store m none v = err outside
store m (some a) v = ok (written m a v)

-- The automaton after the two calls of `memset`; `garbage` is what was on the stack.
abbrev pub cleared : Memory → Memory
cleared garbage i =
    if ltb i max_states
    then 0
    else if ltb i (max_states + max_states)
    then garbage i
    else if ltb i (ints - 1)
    then 0
    else garbage i

-- The automaton and the next new state.
pub record Trie : Type 0 where
  pub memory : Memory
  pub states : ℕ

-- `if(automata.go[currentState][ch] == 0) automata.go[currentState][ch] = states++;`
unfoldable pub grow : Trie → ℕ → ℕ → Result Trie
grow t current ch = load t.memory (go_at current ch) >>= λ next.
    if next == 0
    then (store t.memory (go_at current ch) t.states >>= λ m.
        ok (record { memory = m; states = t.states + 1 }))
    else ok t

-- The characters of a line, at most so many. A `char` above 127 is negative, and no letter.
unfoldable pub insert_chars : ℕ → List ℕ → ℕ → Trie → Result (ℕ × Trie)
unfolding grow
insert_chars zero line current t = ok (current, t)
insert_chars (suc left) [] current t = ok (current, t)
insert_chars (suc left) (c ∷ line) current t =
    let rest = grow t current (c - b'a') >>= λ t'.
    load t'.memory (go_at current (c - b'a')) >>= λ next. insert_chars left line next t' in
    if c == 0 || c == b'\n'
    then ok (current, t)
    else if ltb c b'a' || leb (b'a' + maxc) c
    then err (invalid_character c)
    else rest

-- `automata.out[currentState] |= (1 << index)`
unfoldable pub mark : Memory → ℕ → ℕ → Result Memory
mark m s index = load m (out_at s) >>= λ out. store m (out_at s) (bit_or out (2 ^ index))

-- The line without its end, as `strcpy` and `strcspn` leave it in `text`.
abbrev pub text_of : List ℕ → List ℕ
text_of [] = []
text_of (c ∷ line) = if c == 0 || c == b'\n' then [] else c ∷ text_of line

-- What `strcpy` copies before its null byte.
abbrev pub c_string : List ℕ → List ℕ
c_string [] = []
c_string (c ∷ line) = if c == 0 then [] else c ∷ c_string line

unfoldable pub insert_line : ℕ → List ℕ → Trie → Result Trie
unfolding insert_chars mark
insert_line index line t = insert_chars size_text line 1 t >>= λ (s, t').
    mark t'.memory s index >>= λ m. ok (record t' { memory = m })

module _ (words : ArrayMap Word) where
  -- The word goes into the map `strings`, and then into the automaton.
  unfoldable pub add_line : ℕ → List ℕ → words.Map × Trie → Result (words.Map × Trie)
  unfolding insert_line
  add_line index line (strings, t) =
      if leb size_text (length (c_string line))
      then err outside
      else if leb (words.max_entries strings) index
      then err no_update
      else insert_line index line t >>= λ t'.
          ok (words.store strings index (record { text = text_of line; number = pos 0 }), t')

  -- `while (getline(...) != -1 && index < MAPSTRINGSSIZE)`
  unfoldable pub add_lines : ℕ → List (List ℕ) → words.Map × Trie → Result (words.Map × Trie)
  unfolding add_line
  add_lines index [] s = ok s
  add_lines index (line ∷ lines) s =
      let rest = add_line index line s >>= λ s'. add_lines (index + 1) lines s' in
      if ltb index map_strings_size then rest else ok s
