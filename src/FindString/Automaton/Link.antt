-- ===== src/FindString/Automaton/Link.antt =====
-- findNextState, and the search of fillMapStrings that finds the failures.
use Prim.Native.Nat.{bit_or}
use honey_potion.Base.{
  ℕ, zero, suc, ◌+◌, ◌-◌, ◌^◌, true, false, ◌&&◌, ltb, leb, ◌==◌, if◌then◌else◌,
}
use honey_potion.FindString.{maxc}
use honey_potion.FindString.Queue.{create_queue, Queue, is_empty, enqueue, dequeue}
use honey_potion.FindString.Automaton.{
  queue_capacity, Memory, Result, ok, err, ◌>>=◌, out_of_fuel, load, store, out_at, failure_at,
  go_at, max_states,
}

-- `if (automata.go[1][ch] == 0) automata.go[1][ch] = 1;` for the characters from `ch` on.
unfoldable pub close_root : ℕ → ℕ → Memory → Result Memory
close_root zero ch m = ok m
close_root (suc left) ch m = load m (go_at 1 ch) >>= λ next.
    (if next == 0 then store m (go_at 1 ch) 1 else ok m) >>= λ m'. close_root left (ch + 1) m'

-- `memset(automata.failure, -1, sizeof automata.failure)`
abbrev pub unlinked : Memory → Memory
unlinked m i = if leb max_states i && ltb i (max_states + max_states) then 2 ^ 32 - 1 else m i

-- `findNextState`
unfoldable pub find_next_state : ℕ → Memory → ℕ → ℕ → Result ℕ
find_next_state zero m current input = err out_of_fuel
find_next_state (suc fuel) m current input = load m (go_at current input) >>= λ next.
    let rest = load m (failure_at current) >>= λ f. find_next_state fuel m f input in
    if next == 0 then rest else ok next

-- The states next to the initial one fail to it, and are queued.
unfoldable pub seed : ℕ → ℕ → Memory × Queue → Result (Memory × Queue)
unfolding enqueue
seed zero ch s = ok s
seed (suc left) ch (m, q) = load m (go_at 1 ch) >>= λ next.
    (if next == 1 then ok (m, q) else store m (failure_at next) 1 >>= λ m'. ok (m', enqueue q next))
    >>= λ s. seed left (ch + 1) s

-- One character of a state that left the queue: the failure of the child is found by the loop of
-- `findNextState`, and the child takes over what is put out there.
unfoldable pub link : ℕ → ℕ → ℕ → Memory × Queue → Result (Memory × Queue)
unfolding find_next_state enqueue
link fuel state ch (m, q) = load m (go_at state ch) >>= λ child.
    if child == 0
    then ok (m, q)
    else load m (failure_at state) >>= λ f. find_next_state fuel m f ch >>= λ failure.
        store m (failure_at child) failure >>= λ m'. load m' (out_at child) >>= λ own.
        load m' (out_at failure) >>= λ taken.
        store m' (out_at child) (bit_or own taken) >>= λ m''. ok (m'', enqueue q child)

-- `for (int ch = 0; ch <= MAXC; ++ch)`
unfoldable pub link_all : ℕ → ℕ → ℕ → ℕ → Memory × Queue → Result (Memory × Queue)
unfolding link
link_all fuel state zero ch s = ok s
link_all fuel state (suc left) ch s =
    link fuel state ch s >>= λ s'. link_all fuel state left (ch + 1) s'

-- `while (!isEmpty(q))`
unfoldable pub link_queue : ℕ → ℕ → Memory × Queue → Result Memory
unfolding link_all is_empty dequeue
link_queue steps zero (m, q) = err out_of_fuel
link_queue steps (suc fuel) (m, q) =
    let (state, q') = dequeue q in
    elim (is_empty q) [
      | true ↦ ok m
      | false ↦ link_all steps state (maxc + 1) 0 (m, q') >>= λ s. link_queue steps fuel s
    ]

-- The trie, closed and linked.
unfoldable pub linked : ℕ → ℕ → (ℕ → ℕ) → Memory → Result Memory
unfolding close_root seed link_queue create_queue
linked steps fuel array m = close_root maxc 0 m >>= λ m'.
    seed maxc 0 (unlinked m', create_queue array queue_capacity) >>= λ s. link_queue steps fuel s
