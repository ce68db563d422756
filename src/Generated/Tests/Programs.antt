-- ===== src/Generated/Tests/Programs.antt =====
-- The theorems on the monitors, the filter and the two arrays at small inputs.
use honey_potion.Base.{
  is_some, true, ℕ, ◌≡◌, refl, ℤ, pos, s32, ◌+ℤ◌, ◌-ℤ◌, ◌+◌, ◌*◌, if◌then◌else◌, List, [], ◌∷◌,
  arith,
}
use honey_potion.Bpf.Array.{ArrayMap, array}
use honey_potion.Generated.Machine.{all_found}
use honey_potion.Generated.Access.{value_or_zero}
use honey_potion.Generated.IoMonitor.{Tallies, disk_monitor_main}
use honey_potion.Generated.IoMonitor.Steps.{disk_side}
use honey_potion.Generated.IoMonitor.Totals.{Call, calls_into, calls_out_of, IsTallied}
use honey_potion.Generated.IoMonitor.Runs.{run, run-disk_totals}
use honey_potion.Generated.Tasks.{MemoryCounts, CpuTimes}
use honey_potion.Generated.Tasks.Counts.{calls_of, AreCounts, run-AreCounts}
use honey_potion.Generated.Tasks.Switches.{total}
use honey_potion.Generated.Tasks.Slices.{Switch, switch, run-slice}
use honey_potion.Generated.Tasks.Counts
use honey_potion.Generated.Tasks.Slices
use honey_potion.Generated.DropUdp.{drop_udp_main, verdict}
use honey_potion.Generated.DropUdp.Same.{finished, is_whole, outcome_end, drop_udp_main-drop_xdp}
use honey_potion.DropUdp.{drop_xdp}
use honey_potion.Generated.MapsExample.{ExampleMaps}
use honey_potion.Generated.MapsExample.Sums
use honey_potion.Generated.MapsExample.Sums.{run-entries}
use honey_potion.Generated.Tests.{start, kills, call, entries, zeros, frame}

abbrev no_tallies : Tallies kills
no_tallies = record { ins = []; outs = []; alerts = [] }

abbrev disk_calls : List Call
disk_calls =
    record { ctx = call (pos 0); pid_tgid = pos 7 }
    ∷ record { ctx = call (pos 1); pid_tgid = pos 7 }
    ∷ record { ctx = call (pos 19); pid_tgid = pos 8 }
    ∷ []

run-disk_totals_example :
    IsTallied kills 10000
      (pos 7)
      (0 + calls_into disk_side (pos 7) disk_calls)
      (0 + calls_out_of disk_side (pos 7) disk_calls)
      (run kills (disk_monitor_main kills all_found) (start no_tallies) disk_calls).maps
unfolding value_or_zero
run-disk_totals_example =
    run-disk_totals kills disk_calls (start no_tallies) (pos 7) 0 0
      (omega arith, omega arith, omega arith) (omega arith) (refl, refl, refl)

abbrev network_calls : List Call
network_calls =
    record { ctx = call (pos 44); pid_tgid = pos 7 }
    ∷ record { ctx = call (pos 299); pid_tgid = pos 7 }
    ∷ []

abbrev no_counts : MemoryCounts kills
no_counts = record { brk_count = []; munmap_count = []; mmap_count = [] }

abbrev memory_calls : List Call
memory_calls =
    record { ctx = call (pos 9); pid_tgid = pos 7 }
    ∷ record { ctx = call (pos 12); pid_tgid = pos 7 }
    ∷ []

run-AreCounts_example :
    AreCounts kills
      (pos 7)
      (0 + calls_of (pos 9) (pos 7) memory_calls)
      (0 + calls_of (pos 11) (pos 7) memory_calls)
      (0 + calls_of (pos 12) (pos 7) memory_calls)
      0
      (Counts.run kills (start no_counts) memory_calls).maps
unfolding value_or_zero
run-AreCounts_example =
    run-AreCounts kills memory_calls (start no_counts) (pos 7) 0 0 0
      ((refl, omega arith), (refl, omega arith), (refl, omega arith)) (omega arith)

abbrev times : CpuTimes entries
times = record { total_time = zeros; start_time = zeros }

abbrev to_three : Switch
to_three = record { ctx = record { prev_pid = 1; next_pid = 3 }; ktime = 100 }

abbrev other_switch : Switch
other_switch = record { ctx = record { prev_pid = 2; next_pid = 4 }; ktime = 120 }

abbrev from_three : Switch
from_three = record { ctx = record { prev_pid = 3; next_pid = 1 }; ktime = 150 }

run-slice_example :
    total entries
      (switch entries
        (Slices.run entries (switch entries (start times) to_three) (other_switch ∷ []))
        from_three).maps
      3
    ≡ s32 (total entries times 3 +ℤ s32 (s32 (pos 150) -ℤ s32 (pos 100)))
unfolding s32
run-slice_example =
    run-slice entries (start times) to_three from_three (other_switch ∷ []) 3 refl refl refl refl
      refl (omega arith, omega arith) (omega arith, omega arith) (refl, refl, tt)

abbrev counters : ArrayMap ℤ
counters = array

drop_udp_main-drop_xdp_example :
    (drop_udp_main {M = ℕ} all_found frame (start 5)
      ≡ finished counters (start 5) (
          if is_whole counters frame
          then outcome_end counters (drop_xdp counters frame (pos 0 ∷ []))
          else verdict 0 frame))
    × (is_some (drop_udp_main {M = ℕ} all_found frame (start 5)) ≡ true)
    × (is_some (drop_xdp counters frame (pos 0 ∷ [])) ≡ true)
drop_udp_main-drop_xdp_example =
    drop_udp_main-drop_xdp counters {M = ℕ} frame (start 5) (pos 0 ∷ [])

abbrev two_arrays : ExampleMaps entries
two_arrays = record { example_map = zeros; second_example_map = zeros }

run-entries_example :
    (value_or_zero (entries.lookup (Sums.run entries 3 (start two_arrays)).maps.example_map 2)
      ≡ pos (0 + 3 * (2 + 1)))
    × (value_or_zero
          (entries.lookup (Sums.run entries 3 (start two_arrays)).maps.second_example_map 0)
        ≡ pos (0 + 3 * 8))
unfolding value_or_zero s32
run-entries_example =
    run-entries entries 3 (start two_arrays) 2 0 0 (omega arith) (omega arith) (omega arith) refl
      refl (omega arith) (omega arith)
