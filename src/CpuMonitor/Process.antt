-- ===== src/CpuMonitor/Process.antt =====
-- What the monitor promises about one process: its five counters as a machine of their own.
use honey_potion.Base.{ℕ, Option, none, some, List, [], ◌∷◌, ltb, ◌==◌, if◌then◌else◌, sub64}
use honey_potion.Bpf.Credit.{count_of, plus}
use honey_potion.CpuMonitor.{Event, sched_switch, sys_enter, sys_exit}

-- The entries of one process in the five maps.
pub record Process : Type 0 where
  pub start : Option ℕ
  pub syscall : Option ℕ
  pub kernel : Option ℕ
  pub user : Option ℕ
  pub in_slice : Option ℕ

abbrev pub added : Option ℕ → ℕ → Option ℕ
added c d = some (plus c d)

-- The end of a slice that began at `t0`: what the slice's system calls did not take is user time.
abbrev pub closed : Process → ℕ → ℕ → Process
closed c t0 ts = record {
  start = none;
  syscall = c.syscall;
  kernel = if ltb 0 (count_of c.in_slice) then added c.kernel (count_of c.in_slice) else c.kernel;
  user =
      if ltb (count_of c.in_slice) (sub64 ts t0)
      then added c.user (sub64 (sub64 ts t0) (count_of c.in_slice))
      else c.user;
  in_slice = none;
}

unfoldable pub switch_out : Process → ℕ → Process
switch_out c ts = elim c.start [ none ↦ c | some t0 ↦ closed c t0 ts ]

abbrev pub switch_in : Process → ℕ → Process
switch_in c ts = record c { start = some ts }

abbrev pub enter : Process → ℕ → Process
enter c ts = record c { syscall = some ts }

unfoldable pub exit : Process → ℕ → Process
exit c ts = elim c.syscall [
  | none ↦ c
  | some t0 ↦ record c { syscall = none; in_slice = added c.in_slice (sub64 ts t0) }
]

-- What an event is to the process `p`.
unfoldable pub step : ℕ → Process → Event → Process
unfolding switch_out exit
step p c (sched_switch prev_pid next_pid ts) =
    let out = if prev_pid == p then switch_out c ts else c in
    if next_pid == p then switch_in out ts else out
step p c (sys_enter pid ts) = if pid == p then enter c ts else c
step p c (sys_exit pid ts) = if pid == p then exit c ts else c

unfoldable pub run_process : ℕ → Process → List Event → Process
unfolding step
run_process p c [] = c
run_process p c (e ∷ es) = run_process p (step p c e) es
