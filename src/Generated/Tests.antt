-- ===== src/Generated/Tests.antt =====
-- The theorems on the generated programs at small inputs: pools that hold zeros, tables of four
-- entries, arrays of seven.
mod Pools
mod Programs
use honey_potion.Base.{
  ℕ, ◌≡◌, refl, true, false, ◌||◌, Bool, ltb, if◌then◌else◌, ℤ, pos, negsuc, s32, ◌+◌, ◌*◌, ◌+ℤ◌,
  ◌-ℤ◌, List, [], ◌∷◌, arith, length, is_some, replicate,
}
use honey_potion.Bpf.{HashMap}
use honey_potion.Bpf.Array.{ArrayMap, array}
use honey_potion.Bpf.Table.{table}
use honey_potion.Packet.{Packet}
use honey_potion.Runtime.Values.{Generic, int, atom_nil, zeroed}
use honey_potion.Generated.Machine.{
  Memory, State, Action, Found, Line, Result, ok, err, pure, caught, printk, key_not_found, no_heap,
  main, all_found, match_error,
}
use honey_potion.Generated.Boot.{fresh, boot_fault, main_incomplete}
use honey_potion.Generated.Access.{int_key, value_or_zero}
use honey_potion.Generated.Constants.{SyscallsEnterArgs, SyscallsEnterKillArgs}
use honey_potion.Generated.Counts.{count_syscalls_main, source_key}
use honey_potion.Generated.Tallies.{calls_at, count, run-count}
use honey_potion.Generated.Tallies
use honey_potion.Generated.Marks.{was_killed}
use honey_potion.Generated.Marks
use honey_potion.Generated.Frames.{frames_from, run-frames}
use honey_potion.Generated.Frames
use honey_potion.Generated.Fact.{fact_main}
use honey_potion.Generated.Fact.Fuel.{fact_line, fact_main-fact_line}

abbrev pub memory : Memory
memory = record {
  string_pool = λ i. 0;
  string_pool_index = 0;
  heap = λ i. zeroed;
  heap_index = 0;
  tuple_pool = λ i. 0;
  tuple_pool_index = 0;
}

abbrev pub start : {M : Type 0} → M → State M
start m = record { memory = memory; maps = m; output = [] }

abbrev no_heap_found : Found
no_heap_found = record all_found { heap = false }

abbrev returns_one : Action ℕ ℤ
returns_one = pure (pos 1)

main_incomplete_example :
    let r = main no_heap_found returns_one (start 5) in
    (r.0 ≡ pos 0) × (r.1.maps ≡ 5) × (r.1.output ≡ caught (boot_fault no_heap_found) ∷ [])
main_incomplete_example = main_incomplete no_heap_found returns_one (start 5) refl

abbrev pub call : ℤ → SyscallsEnterArgs
call n = record { common_pid = pos 7; id = n; args = λ i. 0 }

abbrev pub entries : ArrayMap Generic
entries = array

abbrev pub zeros : List Generic
zeros = replicate 7 zeroed

abbrev calls : List SyscallsEnterArgs
calls = call (pos 2) ∷ call (pos 9) ∷ call (pos 2) ∷ []

run-count_example :
    count entries (Tallies.run entries (start zeros) calls).maps 2 ≡ pos (0 + calls_at 2 calls)
unfolding value_or_zero s32
run-count_example = run-count entries calls (start zeros) 2 0 (omega arith) refl (omega arith)

abbrev pub kills : HashMap int_key Generic
kills = table int_key 4

abbrev kill : ℤ → ℤ → SyscallsEnterKillArgs
kill p n = record { syscall_nr = pos 62; pid = p; sig = n }

abbrev kill_calls : List SyscallsEnterKillArgs
kill_calls = kill (pos 40) (pos 15) ∷ kill (negsuc 6) (pos 9) ∷ []

abbrev pub frame : Packet
frame = record { size = 60; byte = λ i. 0 }

run-frames_example :
    value_or_zero (kills.lookup (Frames.run kills (start []) (frame ∷ frame ∷ [])).maps (pos 0))
    ≡ pos (0 + frames_from kills (pos 0) (frame ∷ frame ∷ []))
unfolding value_or_zero
run-frames_example =
    run-frames kills (frame ∷ frame ∷ []) (start []) (pos 0) 0 (omega arith) refl (omega arith)

fact_main-fact_line_example :
    fact_main {M = ℕ} all_found (call (pos 2)) (start 5)
    ≡ (pos 0, record (start 5) { memory = fresh memory; output = fact_line (s32 (pos 2)) ∷ [] })
fact_main-fact_line_example = fact_main-fact_line {M = ℕ} (start 5) (call (pos 2))
