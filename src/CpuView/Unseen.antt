-- ===== src/CpuView/Unseen.antt =====
-- Processes that the monitor leaves out.
use honey_potion.Base.{
  ℕ, ◌≤◌, ◌≡◌, ap, ◌∙◌, true, false, Bool, not, ◌&&◌, ◌==◌, Option-cases, inl, inr, Option, none,
  some, List, [], ◌∷◌, length, arith,
}
use honey_potion.Bpf.{HashMap, nat_key}
use honey_potion.Monitor.{find}
use honey_potion.Monitor.Reading.{Follows, shown_of}
use honey_potion.CpuMonitor.{Maps, Event, sched_switch, sys_enter, sys_exit, run, HasRoom}
use honey_potion.CpuMonitor.Process.{Process, switch_out, exit, step, run_process}
use honey_potion.CpuMonitor.Refine.{view, run-view}
use honey_potion.CpuView.{CpuEntry, cpu_kind, both_times, read_map}
use honey_potion.CpuView.Slices.{times_of, read_map-times}

-- The process enters no system call.
abbrev pub never_enters : ℕ → List Event → Bool
never_enters p [] = true
never_enters p (sched_switch prev_pid next_pid ts ∷ es) = never_enters p es
never_enters p (sys_enter pid ts ∷ es) = not (pid == p) && never_enters p es
never_enters p (sys_exit pid ts ∷ es) = never_enters p es

-- No system call of the process has been seen.
abbrev pub HasNoCall : Process → Type 0
HasNoCall c = (c.kernel ≡ none) × (c.syscall ≡ none) × (c.in_slice ≡ none)

switch_out-HasNoCall : (c : Process) (ts : ℕ) → HasNoCall c → HasNoCall (switch_out c ts)
unfolding switch_out
switch_out-HasNoCall c ts h = elim (Option-cases c.start) [
  | inl e ↦ rw (e, switch_out) h
  | inr (t, e) ↦ rw (e, switch_out) (ground (arith, h))
]

switch-HasNoCall :
    (p : ℕ) (c : Process) (prev_pid next_pid ts : ℕ)
    → HasNoCall c
    → HasNoCall (step p c (sched_switch prev_pid next_pid ts))
unfolding step
switch-HasNoCall p c prev_pid next_pid ts h = ground (arith, h, switch_out-HasNoCall c ts h)

exit-HasNoCall :
    (p : ℕ) (c : Process) (pid ts : ℕ) → HasNoCall c → HasNoCall (step p c (sys_exit pid ts))
unfolding step exit
exit-HasNoCall p c pid ts (h, g, r) = ground (arith, h, g, r)

enter-HasNoCall :
    (p : ℕ) (c : Process) (pid ts : ℕ)
    → (pid == p) ≡ false
    → HasNoCall c
    → HasNoCall (step p c (sys_enter pid ts))
unfolding step
enter-HasNoCall p c pid ts away h = rw away h

run_process-HasNoCall :
    (p : ℕ) (es : List Event) (c : Process)
    → never_enters p es ≡ true
    → HasNoCall c
    → HasNoCall (run_process p c es)
unfolding run_process
run_process-HasNoCall p [] c never h = h
run_process-HasNoCall p (sched_switch prev_pid next_pid ts ∷ es) c never h =
    run_process-HasNoCall p es _ never (switch-HasNoCall p c prev_pid next_pid ts h)
run_process-HasNoCall p (sys_enter pid ts ∷ es) c never h =
    let away : (pid == p) ≡ false = ground (arith, never) in
    let later : never_enters p es ≡ true = ground (arith, never) in
    run_process-HasNoCall p es _ later (enter-HasNoCall p c pid ts away h)
run_process-HasNoCall p (sys_exit pid ts ∷ es) c never h =
    run_process-HasNoCall p es _ never (exit-HasNoCall p c pid ts h)

from_unshown : {E V : Type 0} (shown : E → V) (x : Option E) → shown_of shown x ≡ none → x ≡ none
from_unshown shown x h = elim (Option-cases x) [
  | inl e ↦ e
  | inr (y, e) ↦ absurd (cc (h, ap (shown_of shown) e))
]

module _ (bpf : HashMap nat_key ℕ) (comm : ℕ → List ℕ) where
  open bpf use {lookup}

  -- A process of which no system call was seen enters none, whatever else happens, in events for
  -- which the maps have room. Then, in any order of the map's keys and with fuel for each, a pass
  -- over the maps ends, and adds no entry for the process, however long it ran.
  pub no_call-unseen :
      (s : Maps bpf.Map) (p : ℕ) (es : List Event) (next : Option ℕ → Option ℕ) (keys : List ℕ)
      (fuel : ℕ) (state : List CpuEntry)
      → HasRoom bpf (length es) s
      → HasNoCall (view bpf p s)
      → never_enters p es ≡ true
      → Follows next none keys
      → length keys ≤ fuel
      → find cpu_kind state p ≡ none
      → let s' = run bpf s es in
        (state' : List CpuEntry) × (read_map comm next
            (lookup s'.kernel_time)
            (lookup s'.user_time)
            fuel
            state
          ≡ some state')
        × (find cpu_kind state' p ≡ none)
  unfolding both_times
  no_call-unseen s p es next keys fuel state room no_call never order enough new =
      let s' = run bpf s es in
      let after : (view bpf p s').kernel ≡ none =
        ap (λ c. c.kernel) (run-view bpf es s p room)
        ∙ (run_process-HasNoCall p es (view bpf p s) never no_call).0 in
      let (state', returns, shows) =
        read_map-times comm next keys fuel state order enough (lookup s'.kernel_time)
          (lookup s'.user_time) in
      (state', returns, from_unshown times_of _ (shows p ∙ rw (after, new) (ground arith)))
