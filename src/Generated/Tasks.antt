-- ===== src/Generated/Tasks.antt =====
-- examples/memory_monitor/lib/src/MemoryMonitor.bpf.c and examples/cpu_monitor/lib/src/
-- CpuMonitor.bpf.c: calls of mmap, munmap and brk, and the time on the processor, by task.
use Prim.Native.String.{String}
pub mod Counts
pub mod Switches
pub mod Slices
use honey_potion.Base.{
  ℕ, ℤ, pos, ◌+ℤ◌, ◌-ℤ◌, s32, to_unsigned, ltb_ℤ, Bool, if◌then◌else◌, List, [], ◌∷◌,
}
use honey_potion.Bpf.{HashMap}
use honey_potion.Bpf.Array.{ArrayMap}
use honey_potion.Runtime.Values.{Generic, int}
use honey_potion.Runtime.Compare.{to_bool}
use honey_potion.Generated.Machine.{State, Action, Found, ◌>>=◌, ◌>>◌, pure, modify, print, main}
use honey_potion.Generated.Access.{int_key, reading, value_or_zero, value_or_fail}
use honey_potion.Generated.Constants.{SyscallsEnterArgs, int_eq}

module _ (bpf : HashMap int_key Generic) where
  open bpf use {Map, lookup, update}

  pub record MemoryCounts : Type 0 where
    pub brk_count : Map
    pub munmap_count : Map
    pub mmap_count : Map

  abbrev pub next_count : Map → ℤ → ℤ
  next_count m pid = s32 (value_or_zero (lookup m pid) +ℤ pos 1)

  unfoldable pub on_mmap : ℤ → Action MemoryCounts (Unit {0})
  unfolding value_or_zero s32 ◌+ℤ◌
  on_mmap pid = reading λ m.
      let count = next_count m.mmap_count pid in
      (do
        modify λ s. record s {
          maps = record s.maps { mmap_count = update m.mmap_count pid (int count) };
        }
        print "PID: %d; MMap Operations: %llu;" (pid ∷ count ∷ []))

  unfoldable pub on_munmap : ℤ → Action MemoryCounts (Unit {0})
  unfolding value_or_zero s32 ◌+ℤ◌
  on_munmap pid = reading λ m.
      let count = next_count m.munmap_count pid in
      (do
        modify λ s. record s {
          maps = record s.maps { munmap_count = update m.munmap_count pid (int count) };
        }
        print "PID: %d; Munmap Operations: %llu;" (pid ∷ count ∷ []))

  unfoldable pub on_brk : ℤ → Action MemoryCounts (Unit {0})
  unfolding value_or_zero s32 ◌+ℤ◌
  on_brk pid = reading λ m.
      let count = next_count m.brk_count pid in
      (do
        modify λ s. record s {
          maps = record s.maps { brk_count = update m.brk_count pid (int count) };
        }
        print "PID: %d; Brk Operations: %llu;" (pid ∷ count ∷ []))

  -- The cond, whose value is not used.
  unfoldable pub memory_cond : ℤ → ℤ → Action MemoryCounts (Unit {0})
  unfolding to_bool on_mmap on_munmap on_brk
  memory_cond pid id =
      if to_bool (int_eq id (pos 9))
      then on_mmap pid
      else if to_bool (int_eq id (pos 11))
      then on_munmap pid
      else if to_bool (int_eq id (pos 12))
      then on_brk pid
      else pure tt

  unfoldable pub memory_monitor_main :
      Found → SyscallsEnterArgs → ℤ → State MemoryCounts → ℤ × State MemoryCounts
  unfolding main s32 memory_cond
  memory_monitor_main found ctx pid_tgid =
      main found do memory_cond (s32 pid_tgid) (s32 ctx.id); pure (pos 0)

-- `sched_switch_args`, as far as the program reads it.
pub record SchedSwitchArgs : Type 0 where
  pub prev_pid : ℕ
  pub next_pid : ℕ

module _ (bpf : ArrayMap Generic) where
  open bpf use {Map, lookup, store}

  pub record CpuTimes : Type 0 where
    pub total_time : Map
    pub start_time : Map

  -- The clause `true` of the cond. Updates of an index outside an array change nothing.
  unfoldable pub switch_times : ℤ → ℤ → ℤ → Action CpuTimes (Unit {0})
  unfolding value_or_fail s32 ◌+ℤ◌ ◌-ℤ◌
  switch_times ts prev_pid next_pid = reading λ m. do
    start ← value_or_fail (lookup m.start_time (to_unsigned prev_pid)) "start_time"
    total ← value_or_fail (lookup m.total_time (to_unsigned prev_pid)) "total_time"
    let sum = s32 (total +ℤ s32 (ts -ℤ start)) in
        (do
          modify λ s. record s {
            maps = record s.maps {
              total_time = store m.total_time (to_unsigned prev_pid) (int sum);
              start_time = store m.start_time (to_unsigned next_pid) (int ts);
            };
          }
          print "PID: %d; CPU Time (ns): %llu;" (next_pid ∷ sum ∷ []))

  unfoldable pub switch_cond : ℤ → ℤ → ℤ → Action CpuTimes (Unit {0})
  unfolding switch_times
  switch_cond ts prev_pid next_pid =
      if ltb_ℤ (pos 41943040) prev_pid
      then print "PID: Out of Bounds; CPU Time (ns): %llu;" (next_pid ∷ pos 0 ∷ [])
      else switch_times ts prev_pid next_pid

  -- `ktime` is what `bpf_ktime_get_ns` returns.
  unfoldable pub cpu_monitor_main :
      Found → SchedSwitchArgs → ℕ → State CpuTimes → ℤ × State CpuTimes
  unfolding main s32 switch_cond
  cpu_monitor_main found ctx ktime = main found do
    switch_cond (s32 (pos ktime)) (s32 (pos ctx.prev_pid)) (s32 (pos ctx.next_pid))
    pure (pos 0)
