-- ===== src/CpuMonitor/Refine.antt =====
-- The handlers over the kernel's maps implement the machine of each process.
use honey_potion.Base.{
  ℕ, suc, Bool, true, false, ◌+◌, ◌<◌, ◌≡◌, refl, none, List, [], ◌∷◌, Option-cases, inl, inr,
  arith, ltb, ◌==◌, ◌&&◌, ◌≤◌, if◌then◌else◌, length, sub64,
}
use honey_potion.Bpf.{HashMap, nat_key}
use honey_potion.Bpf.Credit.{count_of, credit, size-credit, lookup-credit}
use honey_potion.CpuMonitor.{
  Maps, Event, sched_switch, sys_enter, sys_exit, add_times, take_run, end_slice, leave,
  on_sched_switch, on_sys_enter, on_sys_exit, handle, run, HasRoom,
}
use honey_potion.CpuMonitor.Process.{Process, switch_out, exit, step, run_process, added, closed}

module _ (bpf : HashMap nat_key ℕ) where
  open bpf use {Map, lookup, update, delete, size, max_entries}

  -- The entries of process `p`.
  abbrev pub view : ℕ → Maps Map → Process
  view p s = record {
    start = lookup s.start_time p;
    syscall = lookup s.syscall_start p;
    kernel = lookup s.kernel_time p;
    user = lookup s.user_time p;
    in_slice = lookup s.run_kernel_time p;
  }

  lookup-take_run :
      (m : Map) (pid p : ℕ)
      → lookup (take_run bpf m pid) p ≡ (if pid == p then none else lookup m p)
  unfolding take_run
  lookup-take_run m pid p = elim (Option-cases (lookup m pid)) [
    | inl e ↦ rw (e, take_run) (ground arith)
    | inr (v, e) ↦ rw (e, take_run) (bpf.lookup-delete m pid p)
  ]

  size-take_run : (m : Map) (pid : ℕ) → size (take_run bpf m pid) ≤ size m
  unfolding take_run
  size-take_run m pid = ground (arith, bpf.size-delete m pid)

  -- Room for one more entry is left in the two totals.
  add_times-view :
      (s : Maps Map) (pid delta ktime p : ℕ)
      → size s.user_time < max_entries
      → size s.kernel_time < max_entries
      → let t = add_times bpf s pid delta ktime in
        (lookup t.user_time p ≡ (
          if pid == p && ltb ktime delta
          then added (lookup s.user_time p) (sub64 delta ktime)
          else lookup s.user_time p))
        × (lookup t.kernel_time p ≡ (
            if pid == p && ltb 0 ktime
            then added (lookup s.kernel_time p) ktime
            else lookup s.kernel_time p))
  unfolding add_times
  add_times-view s pid delta ktime p hu hk = ground (
    arith,
    lookup-credit bpf s.user_time pid (sub64 delta ktime) p,
    lookup-credit bpf s.kernel_time pid ktime p,
  )

  end_slice-view :
      (s : Maps Map) (pid t0 ts n p : ℕ)
      → HasRoom bpf (suc n) s
      → view p (end_slice bpf s pid t0 ts)
        ≡ (if pid == p then closed (view p s) t0 ts else view p s)
  unfolding end_slice
  end_slice-view s pid t0 ts n p h =
      let ktime : ℕ = count_of (lookup s.run_kernel_time pid) in
      ground (
        arith,
        add_times-view s pid (sub64 ts t0) ktime p,
        lookup-take_run s.run_kernel_time pid p,
        bpf.lookup-delete s.start_time pid p,
      )

  leave-view :
      (s : Maps Map) (pid ts n p : ℕ)
      → HasRoom bpf (suc n) s
      → view p (leave bpf s pid ts) ≡ (if pid == p then switch_out (view p s) ts else view p s)
  unfolding leave switch_out
  leave-view s pid ts n p h = elim (Option-cases (lookup s.start_time pid)) [
    | inl e ↦ rw (e, leave) (ground (arith, e))
    | inr (t0, e) ↦ rw (e, leave) (ground (arith, e, end_slice-view s pid t0 ts n p h))
  ]

  size-credit_if :
      (b : Bool) (m : Map) (k d : ℕ) → size (if b then credit bpf m k d else m) ≤ size m + 1
  size-credit_if true m k d = size-credit bpf m k d
  size-credit_if false m k d = omega arith

  leave-HasRoom :
      (s : Maps Map) (pid ts n : ℕ)
      → HasRoom bpf (suc n) s
      → HasRoom bpf n (leave bpf s pid ts)
        × (size (leave bpf s pid ts).start_time + suc n ≤ max_entries)
  unfolding leave end_slice add_times
  leave-HasRoom s pid ts n h = elim (Option-cases (lookup s.start_time pid)) [
    | inl e ↦ rw (e, leave) (omega arith)
    | inr (t0, e) ↦
        let ktime : ℕ = count_of (lookup s.run_kernel_time pid) in
        let delta : ℕ = sub64 ts t0 in
        rw (e, leave)
          (omega (
            arith,
            size-credit_if (ltb ktime delta) s.user_time pid (sub64 delta ktime),
            size-credit_if (ltb 0 ktime) s.kernel_time pid ktime,
            size-take_run s.run_kernel_time pid,
            bpf.size-delete s.start_time pid,
          ))
  ]

  on_sys_exit-HasRoom :
      (s : Maps Map) (pid ts n : ℕ)
      → HasRoom bpf (suc n) s
      → HasRoom bpf n (on_sys_exit bpf s pid ts)
  unfolding on_sys_exit
  on_sys_exit-HasRoom s pid ts n h = elim (Option-cases (lookup s.syscall_start pid)) [
    | inl e ↦ rw (e, on_sys_exit) (omega arith)
    | inr (t0, e) ↦
        rw (e, on_sys_exit)
          (omega (
            arith,
            size-credit bpf s.run_kernel_time pid (sub64 ts t0),
            bpf.size-delete s.syscall_start pid,
          ))
  ]

  handle-HasRoom :
      (s : Maps Map) (e : Event) (n : ℕ) → HasRoom bpf (suc n) s → HasRoom bpf n (handle bpf s e)
  unfolding handle on_sched_switch on_sys_enter
  handle-HasRoom s (sched_switch prev_pid next_pid ts) n h = omega (
    arith,
    leave-HasRoom s prev_pid ts n h,
    bpf.size-update (leave bpf s prev_pid ts).start_time next_pid ts,
  )
  handle-HasRoom s (sys_enter pid ts) n h = omega (arith, bpf.size-update s.syscall_start pid ts)
  handle-HasRoom s (sys_exit pid ts) n h = on_sys_exit-HasRoom s pid ts n h

  on_sys_exit-view :
      (s : Maps Map) (pid ts n p : ℕ)
      → HasRoom bpf (suc n) s
      → view p (on_sys_exit bpf s pid ts) ≡ (if pid == p then exit (view p s) ts else view p s)
  unfolding on_sys_exit exit
  on_sys_exit-view s pid ts n p h = elim (Option-cases (lookup s.syscall_start pid)) [
    | inl e ↦ rw (e, on_sys_exit) (ground (arith, e))
    | inr (t0, e) ↦
        rw (e, on_sys_exit)
          (ground (
            arith,
            e,
            lookup-credit bpf s.run_kernel_time pid (sub64 ts t0) p,
            bpf.lookup-delete s.syscall_start pid p,
          ))
  ]

  handle-view :
      (s : Maps Map) (e : Event) (n p : ℕ)
      → HasRoom bpf (suc n) s
      → view p (handle bpf s e) ≡ step p (view p s) e
  unfolding handle on_sched_switch on_sys_enter step
  handle-view s (sched_switch prev_pid next_pid ts) n p h = ground (
    arith,
    leave-view s prev_pid ts n p h,
    leave-HasRoom s prev_pid ts n h,
    bpf.lookup-update (leave bpf s prev_pid ts).start_time next_pid ts p,
  )
  handle-view s (sys_enter pid ts) n p h =
      ground (arith, bpf.lookup-update s.syscall_start pid ts p)
  handle-view s (sys_exit pid ts) n p h = on_sys_exit-view s pid ts n p h

  -- Whatever the order in which the tracepoints fire for all the processes: if each map has room
  -- for one more entry per event, the entries of a process after the events are those that its
  -- own machine reaches on them. No event of another process changes them.
  pub run-view :
      (es : List Event) (s : Maps Map) (p : ℕ)
      → HasRoom bpf (length es) s
      → view p (run bpf s es) ≡ run_process p (view p s) es
  unfolding run run_process
  run-view [] s p h = refl
  run-view (e ∷ es) s p h = rw (
    run-view es (handle bpf s e) p (handle-HasRoom s e (length es) h),
    handle-view s e (length es) p h,
  )
