-- ===== src/FindString/Automaton/Tests.antt =====
-- The words "ab" and "b"; the automaton of the word "b"; and three words whose automaton is wrong.
use honey_potion.Base.{
  ℕ, ◌+◌, ◌^◌, ◌<◌, ◌≡◌, ◌↔◌, refl, pos, some, List, [], ◌∷◌, map, get_elem?, replicate, ◌==◌,
  if◌then◌else◌, leb, ltb, ◌&&◌, arith,
}
use honey_potion.Base.Bits.{bit}
use honey_potion.Bpf.Array.{ArrayMap, array}
use honey_potion.FindString.{Word, GotoResult, Row, maxc}
use honey_potion.FindString.Scan.{IsClosed}
use honey_potion.FindString.Queue.{create_queue}
use honey_potion.FindString.Queue.Refine.{
  run, list_run, run-list_run, enqueue_op, dequeue_op, rear_op, is_full_op,
}
use honey_potion.FindString.Automaton.{
  Memory, Trie, Result, ok, ◌>>=◌, add_lines, insert_line, load, out_at,
}
use honey_potion.FindString.Automaton.Link.{linked}
use honey_potion.FindString.Automaton.Fill.{write_rows, goto_result}
use honey_potion.FindString.Automaton.Names.{walk, IsWord}
use honey_potion.FindString.Automaton.Rows.{IsLinked, IsEntry}
use honey_potion.FindString.Automaton.Exact.{Line, chars, word_of, start, add_lines-exact}
use honey_potion.FindString.Automaton.Kernel.{row_in, write_rows-IsClosed}

run-list_run_example :
    run
      (create_queue (λ i. 7) 2)
      (enqueue_op 5 ∷ enqueue_op 6 ∷ is_full_op ∷ enqueue_op 8 ∷ dequeue_op ∷ rear_op ∷ [])
    ≡ list_run 2 []
        (enqueue_op 5 ∷ enqueue_op 6 ∷ is_full_op ∷ enqueue_op 8 ∷ dequeue_op ∷ rear_op ∷ [])
run-list_run_example =
    run-list_run (λ i. 7) 2
      (enqueue_op 5 ∷ enqueue_op 6 ∷ is_full_op ∷ enqueue_op 8 ∷ dequeue_op ∷ rear_op ∷ [])
      (omega arith) (omega arith)

abbrev words : ArrayMap Word
words = array

abbrev strings : List Word
strings = replicate 5 (record { text = []; number = pos 0 })

-- "ab" with a newline, and "b" at the end of the file.
abbrev lines : List Line
lines = record { word = 97 ∷ 98 ∷ []; end = 10 ∷ [] } ∷ record { word = 98 ∷ []; end = [] } ∷ []

abbrev garbage : Memory
garbage i = 9

add_lines-exact_example :
    (s : List Word × Trie) × (add_lines words 0 (map chars lines) (strings, start garbage) ≡ ok s)
    × ((i : ℕ) (v : List ℕ)
        → IsWord v
        → (bit i (s.1.memory (walk s.1.memory 1 v)) ≡ 1)
          ↔ (get_elem? (map word_of lines) i ≡ some v))
    × ((i : ℕ) (v : List ℕ)
        → get_elem? (map word_of lines) i ≡ some v
        → get_elem? s.0 i ≡ some (record { text = v; number = pos 0 }))
add_lines-exact_example =
    add_lines-exact words lines garbage strings (omega arith) (omega arith) (omega arith)

-- State 2 is the word "b", and fails to state 1.
abbrev automaton : Memory
automaton i =
    if i == 129
    then 2
    else if leb 128 i && ltb i 154
    then 1
    else if i == 2
    then 1
    else if i == 53
    then 1
    else 0

automaton-IsLinked : IsLinked (λ s. s) 3 automaton
automaton-IsLinked = record {
  low = omega arith;
  size = omega arith;
  root = λ c h. ground arith;
  edges = λ s c some_state below h. ground arith;
  back = λ s not_root below. ground arith;
}

abbrev rows : ArrayMap (List GotoResult)
rows = array

write_rows-IsClosed_example :
    let g = replicate 51 [] in
    (g' : List (List GotoResult)) × (row : ℕ → Row) × (write_rows rows 3 3 [] automaton g ≡ ok g')
    × IsClosed (λ s. row_in (get_elem? g' s)) row 3
    × ((s c : ℕ) → 0 < s → s < 3 → c < maxc → IsEntry automaton 3 s c (row s c))
write_rows-IsClosed_example =
    write_rows-IsClosed rows (λ s. s) 3 3 automaton [] (replicate 51 []) automaton-IsLinked
      (λ s some_state below. below) (omega arith)

-- The automaton of "ba", "c" and "da", whose states are 3, 4 and 6. The overrun at the row of "c"
-- takes the child of "d" for one of "c".
abbrev built : Result Memory
built = insert_line 0 (98 ∷ 97 ∷ []) (start garbage) >>= λ t. insert_line 1 (99 ∷ []) t >>= λ t.
    insert_line 2 (100 ∷ 97 ∷ []) t >>= λ t. linked 60 60 garbage t.memory

-- The state of "da" puts out "ba" too.
false_match : (built >>= λ m. load m (out_at 6)) ≡ ok (2 ^ 0 + 2 ^ 2)
unfolding insert_line linked
false_match = refl

-- The automaton of "abc" and "bd", whose states are 4 and 6. From "ab" the letter `d` leads to "bd"
-- and puts out nothing.
missed : Result Memory
missed = insert_line 0 (97 ∷ 98 ∷ 99 ∷ []) (start garbage) >>= λ t.
    insert_line 1 (98 ∷ 100 ∷ []) t >>= λ t. linked 60 60 garbage t.memory

missed_match :
    ((missed >>= λ m. goto_result 60 m 3 3) ≡ ok (record { next_state = 6; match = 0 }))
    × ((missed >>= λ m. load m (out_at 6)) ≡ ok (2 ^ 1))
unfolding missed insert_line linked goto_result
missed_match = (refl, refl)
