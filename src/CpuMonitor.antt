-- ===== src/CpuMonitor.antt =====
-- benchmarks/cpumonitor/prog.bpf.c: user and kernel time of each process, from the scheduler's
-- and the system calls' tracepoints. A tracepoint hands in the process ids; what
-- bpf_ktime_get_ns and bpf_get_current_pid_tgid return are arguments of the handlers.
pub mod Process
pub mod Refine
pub mod Slices
mod Tests
use honey_potion.Base.{ℕ, ◌≤◌, ◌+◌, Option, none, some, List, [], ◌∷◌, ltb, if◌then◌else◌, sub64}
use honey_potion.Bpf.{HashMap, nat_key}
use honey_potion.Bpf.Credit.{count_of, credit}

-- The five maps.
pub record Maps (M : Type 0) : Type 0 where
  pub start_time : M
  pub syscall_start : M
  pub kernel_time : M
  pub user_time : M
  pub run_kernel_time : M

-- One firing of a tracepoint.
pub data Event : Type 0 where
  sched_switch : (prev_pid next_pid ts : ℕ) → Event
  sys_enter : (pid ts : ℕ) → Event
  sys_exit : (pid ts : ℕ) → Event

module _ (bpf : HashMap nat_key ℕ) where
  open bpf use {Map, lookup, update, delete, size, max_entries}

  -- The two totals, once the slice's length `delta` and its kernel time `ktime` are known.
  unfoldable pub add_times : Maps Map → ℕ → ℕ → ℕ → Maps Map
  unfolding credit
  add_times s pid delta ktime = record s {
    user_time =
        if ltb ktime delta then credit bpf s.user_time pid (sub64 delta ktime) else s.user_time;
    kernel_time = if ltb 0 ktime then credit bpf s.kernel_time pid ktime else s.kernel_time;
  }

  -- `if (kstart) … bpf_map_delete_elem(&run_kernel_time, &prev_pid)`
  unfoldable pub take_run : Map → ℕ → Map
  take_run m pid = elim (lookup m pid) [ none ↦ m | some k ↦ delete m pid ]

  -- The block of `on_sched_switch` for a process whose start is known.
  unfoldable pub end_slice : Maps Map → ℕ → ℕ → ℕ → Maps Map
  unfolding add_times take_run
  end_slice s pid start ts =
      let ktime = count_of (lookup s.run_kernel_time pid) in
      let t = add_times s pid (sub64 ts start) ktime in
      record t {
        run_kernel_time = take_run s.run_kernel_time pid;
        start_time = delete s.start_time pid;
      }

  unfoldable pub leave : Maps Map → ℕ → ℕ → Maps Map
  unfolding end_slice
  leave s pid ts = elim (lookup s.start_time pid) [
    | none ↦ s
    | some start ↦ end_slice s pid start ts
  ]

  -- `on_sched_switch`
  unfoldable pub on_sched_switch : Maps Map → ℕ → ℕ → ℕ → Maps Map
  unfolding leave
  on_sched_switch s prev_pid next_pid ts =
      let t = leave s prev_pid ts in record t { start_time = update t.start_time next_pid ts }

  -- `on_sys_enter`
  unfoldable pub on_sys_enter : Maps Map → ℕ → ℕ → Maps Map
  on_sys_enter s pid ts = record s { syscall_start = update s.syscall_start pid ts }

  -- `on_sys_exit`
  unfoldable pub on_sys_exit : Maps Map → ℕ → ℕ → Maps Map
  unfolding credit
  on_sys_exit s pid ts = elim (lookup s.syscall_start pid) [
    | none ↦ s
    | some start ↦ record s {
      run_kernel_time = credit bpf s.run_kernel_time pid (sub64 ts start);
      syscall_start = delete s.syscall_start pid;
    }
  ]

  unfoldable pub handle : Maps Map → Event → Maps Map
  unfolding on_sched_switch on_sys_enter on_sys_exit
  handle s (sched_switch prev_pid next_pid ts) = on_sched_switch s prev_pid next_pid ts
  handle s (sys_enter pid ts) = on_sys_enter s pid ts
  handle s (sys_exit pid ts) = on_sys_exit s pid ts

  -- The tracepoints fire one after the other.
  unfoldable pub run : Maps Map → List Event → Maps Map
  unfolding handle
  run s [] = s
  run s (e ∷ es) = run (handle s e) es

  -- Room for `n` more entries in each map.
  pub record HasRoom (n : ℕ) (s : Maps Map) : Type 0 where
    pub start_room : size s.start_time + n ≤ max_entries
    pub syscall_room : size s.syscall_start + n ≤ max_entries
    pub kernel_room : size s.kernel_time + n ≤ max_entries
    pub user_room : size s.user_time + n ≤ max_entries
    pub run_room : size s.run_kernel_time + n ≤ max_entries
