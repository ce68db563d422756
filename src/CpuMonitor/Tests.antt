-- ===== src/CpuMonitor/Tests.antt =====
-- The monitor over a table of eight entries: process 7 runs from 100 to 400 and is in a system
-- call from 150 to 250, while process 8 leaves a call.
use honey_potion.Base.{ℕ, false, ◌+◌, ◌≢◌, ◌≡◌, refl, none, some, List, [], ◌∷◌, ◌++◌, arith}
use honey_potion.Bpf.{HashMap, nat_key}
use honey_potion.Bpf.Table.{table}
use honey_potion.Bpf.Credit.{count_of}
use honey_potion.CpuMonitor.{Maps, Event, sched_switch, sys_enter, sys_exit, run, HasRoom}
use honey_potion.CpuMonitor.Process.{run_process}
use honey_potion.CpuMonitor.Refine.{view, run-view}
use honey_potion.CpuMonitor.Slices.{
  Slice, stops, other, enters, exits, process_times, blocked_call_times, Accounted, blocked_call,
}

abbrev bpf : HashMap nat_key ℕ
bpf = table nat_key 8

abbrev started : Maps (List (ℕ × ℕ))
started = record {
  start_time = (7, 100) ∷ [];
  syscall_start = (8, 90) ∷ [];
  kernel_time = (7, 10) ∷ [];
  user_time = [];
  run_kernel_time = [];
}

abbrev events : List Event
events = sys_enter 7 150 ∷ sys_exit 8 200 ∷ sys_exit 7 250 ∷ []

events-Slice : Slice 7 400 false 100 100 events
events-Slice =
    enters 150 (omega arith)
      (other (sys_exit 8 200) refl (exits 250 (omega arith) refl (stops (omega arith) refl)))

run_totals :
    view bpf 7 (run bpf started (events ++ sched_switch 7 9 400 ∷ []))
    ≡ record { start = none; syscall = none; kernel = some 110; user = some 200; in_slice = none }
unfolding run
run_totals = refl

room : HasRoom bpf 4 started
room = omega arith

run-view_example :
    view bpf 7 (run bpf started (events ++ sched_switch 7 9 400 ∷ []))
    ≡ run_process 7 (view bpf 7 started) (events ++ sched_switch 7 9 400 ∷ [])
run-view_example = run-view bpf (events ++ sched_switch 7 9 400 ∷ []) started 7 room

process_times_example :
    Accounted
      (view bpf 7 started)
      (view bpf 7 (run bpf started (events ++ sched_switch 7 9 400 ∷ [])))
      300
      100
process_times_example =
    process_times bpf started 7 9 100 400 100 events room refl refl refl events-Slice (omega arith)
      (omega arith)

seven-ne-nine : ◌≢◌ {A = ℕ} 7 9
seven-ne-nine = omega arith

room_for_five : HasRoom bpf 5 started
room_for_five = omega arith

blocked_call_times_example :
    let s' = run bpf started (blocked_call 7 9 150 200 500 600 650) in
    (count_of (bpf.lookup s'.kernel_time 7) ≡ count_of (bpf.lookup started.kernel_time 7) + 450)
    × (count_of (bpf.lookup s'.user_time 7) ≡ count_of (bpf.lookup started.user_time 7) + 100)
    × (count_of (bpf.lookup s'.kernel_time 7) + count_of (bpf.lookup s'.user_time 7)
        ≡ count_of (bpf.lookup started.kernel_time 7)
          + count_of (bpf.lookup started.user_time 7)
          + (100 + 150)
          + 300)
blocked_call_times_example =
    blocked_call_times bpf started 7 9 100 150 200 500 600 650 room_for_five refl refl seven-ne-nine
      (omega arith) (omega arith) (omega arith) (omega arith)
