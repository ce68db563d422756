-- ===== src/Generated/IoMonitor.antt =====
-- examples/disk_monitor/lib/src/DiskMonitor.bpf.c and examples/network_monitor/lib/src/
-- NetworkMonitor.bpf.c: calls in two directions are counted for each task, and a flag is kept
-- that tells whether their sum is above a threshold.
pub mod Steps
pub mod Totals
pub mod Runs
use Prim.Native.String.{String}
use honey_potion.Base.{ℤ, pos, ◌+ℤ◌, s32, ltb_ℤ, Bool, if◌then◌else◌, List, [], ◌∷◌}
use honey_potion.Bpf.{HashMap}
use honey_potion.Runtime.Values.{Generic, int}
use honey_potion.Runtime.Compare.{to_bool}
use honey_potion.Generated.Machine.{State, Action, Found, ◌>>=◌, ◌>>◌, pure, modify, print, main}
use honey_potion.Generated.Access.{int_key, reading, value_or_zero}
use honey_potion.Generated.Constants.{SyscallsEnterArgs, int_eq}

module _ (bpf : HashMap int_key Generic) where
  open bpf use {Map, lookup, update}

  -- `ins` is read_count or send_count, `outs` is write_count or recv_count, and `alerts` is
  -- alert_flag.
  pub record Tallies : Type 0 where
    pub ins : Map
    pub outs : Map
    pub alerts : Map

  abbrev set_ins : Map → Action Tallies (Unit {0})
  set_ins m = modify (λ s. record s { maps = record s.maps { ins = m } })

  abbrev set_outs : Map → Action Tallies (Unit {0})
  set_outs m = modify (λ s. record s { maps = record s.maps { outs = m } })

  abbrev set_alerts : Map → Action Tallies (Unit {0})
  set_alerts m = modify (λ s. record s { maps = record s.maps { alerts = m } })

  -- The inner cond.
  unfoldable pub alert : ℤ → String → ℤ → ℤ → Action Tallies (Unit {0})
  alert threshold text pid total =
      if ltb_ℤ threshold total
      then (do
        reading λ m. set_alerts (update m.alerts pid (int (pos 1)))
        print text (pid ∷ total ∷ []))
      else reading λ m. set_alerts (update m.alerts pid (int (pos 0)))

  -- A clause of the outer cond that counts in the first map, and one that counts in the second.
  unfoldable pub count_in : ℤ → String → String → ℤ → Action Tallies (Unit {0})
  unfolding alert value_or_zero s32 ◌+ℤ◌
  count_in threshold alert_text text pid = reading λ m.
      let new_count = s32 (value_or_zero (lookup m.ins pid) +ℤ pos 1) in
      (do
        set_ins (update m.ins pid (int new_count))
        reading λ n.
            alert threshold alert_text pid (s32 (new_count +ℤ value_or_zero (lookup n.outs pid)))
        print text (pid ∷ new_count ∷ []))

  unfoldable pub count_out : ℤ → String → String → ℤ → Action Tallies (Unit {0})
  unfolding alert value_or_zero s32 ◌+ℤ◌
  count_out threshold alert_text text pid = reading λ m.
      let new_count = s32 (value_or_zero (lookup m.outs pid) +ℤ pos 1) in
      (do
        set_outs (update m.outs pid (int new_count))
        reading λ n.
            alert threshold alert_text pid (s32 (value_or_zero (lookup n.ins pid) +ℤ new_count))
        print text (pid ∷ new_count ∷ []))

  abbrev io_alert : String
  io_alert = "PID: %llu; alert total I/O calls: %llu;"

  unfoldable pub on_read : ℤ → Action Tallies (Unit {0})
  unfolding count_in
  on_read pid = count_in (pos 10000) io_alert "PID: %llu; read: %llu;" pid

  unfoldable pub on_write : ℤ → Action Tallies (Unit {0})
  unfolding count_out
  on_write pid = count_out (pos 10000) io_alert "PID: %llu; write: %llu;" pid

  unfoldable pub on_pread64 : ℤ → Action Tallies (Unit {0})
  unfolding count_in
  on_pread64 pid = count_in (pos 10000) io_alert "PID: %llu; pread64: %llu;" pid

  unfoldable pub on_pwrite64 : ℤ → Action Tallies (Unit {0})
  unfolding count_out
  on_pwrite64 pid = count_out (pos 10000) io_alert "PID: %llu; pwrite64: %llu;" pid

  unfoldable pub on_readv : ℤ → Action Tallies (Unit {0})
  unfolding count_in
  on_readv pid = count_in (pos 10000) io_alert "PID: %llu; readv: %llu;" pid

  unfoldable pub on_writev : ℤ → Action Tallies (Unit {0})
  unfolding count_out
  on_writev pid = count_out (pos 10000) io_alert "PID: %llu; writev: %llu;" pid

  abbrev net_alert : String
  net_alert = "PID: %llu; alert total calls: %llu;"

  unfoldable pub on_sendto : ℤ → Action Tallies (Unit {0})
  unfolding count_in
  on_sendto pid = count_in (pos 50000) net_alert "PID: %llu; sendto: %llu;" pid

  unfoldable pub on_sendmsg : ℤ → Action Tallies (Unit {0})
  unfolding count_in
  on_sendmsg pid = count_in (pos 50000) net_alert "PID: %llu; sendmsg: %llu;" pid

  unfoldable pub on_sendmmsg : ℤ → Action Tallies (Unit {0})
  unfolding count_in
  on_sendmmsg pid = count_in (pos 50000) net_alert "PID: %llu; sendmmsg: %llu;" pid

  unfoldable pub on_recvfrom : ℤ → Action Tallies (Unit {0})
  unfolding count_out
  on_recvfrom pid = count_out (pos 50000) net_alert "PID: %llu; recvfrom: %llu;" pid

  unfoldable pub on_recvmsg : ℤ → Action Tallies (Unit {0})
  unfolding count_out
  on_recvmsg pid = count_out (pos 50000) net_alert "PID: %llu; recvmsg: %llu;" pid

  unfoldable pub on_recvmmsg : ℤ → Action Tallies (Unit {0})
  unfolding count_out
  on_recvmmsg pid = count_out (pos 50000) net_alert "PID: %llu; recvmmsg: %llu;" pid

  abbrev is_id : ℤ → ℤ → Bool
  is_id a b = to_bool (int_eq a b)

  -- The outer conds. Their values are not used.
  unfoldable pub disk_cond : ℤ → ℤ → Action Tallies (Unit {0})
  unfolding to_bool on_read on_write on_pread64 on_pwrite64 on_readv on_writev
  disk_cond pid id =
      if is_id pid (pos 0)
      then pure tt
      else if is_id id (pos 0)
      then on_read pid
      else if is_id id (pos 1)
      then on_write pid
      else if is_id id (pos 17)
      then on_pread64 pid
      else if is_id id (pos 18)
      then on_pwrite64 pid
      else if is_id id (pos 19)
      then on_readv pid
      else if is_id id (pos 20)
      then on_writev pid
      else pure tt

  unfoldable pub network_cond : ℤ → ℤ → Action Tallies (Unit {0})
  unfolding to_bool on_sendto on_sendmsg on_sendmmsg on_recvfrom on_recvmsg on_recvmmsg
  network_cond pid id =
      if is_id pid (pos 0)
      then pure tt
      else if is_id id (pos 44)
      then on_sendto pid
      else if is_id id (pos 46)
      then on_sendmsg pid
      else if is_id id (pos 307)
      then on_sendmmsg pid
      else if is_id id (pos 45)
      then on_recvfrom pid
      else if is_id id (pos 47)
      then on_recvmsg pid
      else if is_id id (pos 299)
      then on_recvmmsg pid
      else pure tt

  -- `pid_tgid` is what `bpf_get_current_pid_tgid` returns.
  unfoldable pub disk_monitor_main :
      Found → SyscallsEnterArgs → ℤ → State Tallies → ℤ × State Tallies
  unfolding main s32 disk_cond
  disk_monitor_main found ctx pid_tgid =
      main found do disk_cond (s32 pid_tgid) (s32 ctx.id); pure (pos 0)

  unfoldable pub network_monitor_main :
      Found → SyscallsEnterArgs → ℤ → State Tallies → ℤ × State Tallies
  unfolding main s32 network_cond
  network_monitor_main found ctx pid_tgid =
      main found do network_cond (s32 pid_tgid) (s32 ctx.id); pure (pos 0)
