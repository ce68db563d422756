-- ===== src/CpuView/Tests.antt =====
-- Process 7 of the monitor's test is read, runs a slice and is read again; process 8 enters no call.
use honey_potion.Base.{ℕ, ◌≡◌, refl, false, Option, none, some, List, [], ◌∷◌, ◌++◌, arith}
use honey_potion.Bpf.{HashMap, nat_key}
use honey_potion.Bpf.Table.{table}
use honey_potion.Bpf.Credit.{count_of}
use honey_potion.Monitor.{find}
use honey_potion.CpuMonitor.{Maps, Event, sched_switch, sys_enter, sys_exit, run, HasRoom}
use honey_potion.CpuMonitor.Slices.{Slice, stops, enters, exits}
use honey_potion.CpuView.{CpuEntry, cpu_kind, deltas, read_map, shown}
use honey_potion.CpuView.Slices.{slice-deltas}
use honey_potion.CpuView.Unseen.{no_call-unseen}

abbrev bpf : HashMap nat_key ℕ
bpf = table nat_key 8

abbrev started : Maps (List (ℕ × ℕ))
started = record {
  start_time = (7, 100) ∷ [];
  syscall_start = [];
  kernel_time = (7, 10) ∷ [];
  user_time = (7, 30) ∷ [];
  run_kernel_time = [];
}

abbrev comm : ℕ → List ℕ
comm pid = 97 ∷ []

-- The order of a map with the one key 7.
abbrev next : Option ℕ → Option ℕ
next none = some 7
next (some k) = none

abbrev events : List Event
events = sys_enter 7 150 ∷ sys_exit 7 250 ∷ []

events-Slice : Slice 7 400 false 100 100 events
events-Slice = enters 150 (omega arith) (exits 250 (omega arith) refl (stops (omega arith) refl))

room : HasRoom bpf 3 started
room = omega arith

slice-deltas_example :
    let s' = run bpf started (events ++ sched_switch 7 9 400 ∷ []) in
    (state' : List CpuEntry) × (e : CpuEntry) × (read_map comm next
        (bpf.lookup started.kernel_time)
        (bpf.lookup started.user_time)
        1
        []
      ≡ some state')
    × (find cpu_kind state' 7 ≡ some e)
    × (deltas e (count_of (bpf.lookup s'.kernel_time 7)) (count_of (bpf.lookup s'.user_time 7))
        ≡ (100, 200))
slice-deltas_example =
    slice-deltas comm next (7 ∷ []) 1 [] (refl, refl) (omega arith) bpf started 7 9 100 400 100 10
      30 events refl refl refl (omega arith) room refl refl refl events-Slice (omega arith)
      (omega arith)

-- Process 8 runs for a second and enters no call.
abbrev busy : List Event
busy = sched_switch 7 8 400 ∷ sched_switch 8 9 1000000400 ∷ []

busy_room : HasRoom bpf 2 started
busy_room = omega arith

no_call-unseen_example :
    let s' = run bpf started busy in
    (state' : List CpuEntry) × (read_map comm next
        (bpf.lookup s'.kernel_time)
        (bpf.lookup s'.user_time)
        1
        []
      ≡ some state')
    × (find cpu_kind state' 8 ≡ none)
unfolding find
no_call-unseen_example =
    no_call-unseen bpf comm started 8 busy next (7 ∷ []) 1 [] busy_room (refl, refl, refl) refl
      (refl, refl) (omega arith) refl

-- Its user time is in the map all the same.
busy_time : bpf.lookup (run bpf started busy).user_time 8 ≡ some 1000000000
unfolding run
busy_time = refl

abbrev entry : List ℕ → CpuEntry
entry name = record { pid = 7; name = name; prev_kernel_ns = 0; prev_user_ns = 0 }

named_only : shown (entry (45 ∷ []) ∷ entry (97 ∷ []) ∷ entry [] ∷ []) ≡ entry (97 ∷ []) ∷ []
unfolding shown
named_only = refl
