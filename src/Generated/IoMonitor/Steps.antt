-- ===== src/Generated/IoMonitor/Steps.antt =====
-- The effect of one system call on the three maps of the monitors.
use Prim.Native.String.{String}
use honey_potion.Base.{
  ℤ, pos, ◌+ℤ◌, ◌≡◌, refl, ◌∙◌, ap, s32, ltb_ℤ, beq_ℤ, Bool-cases, inl, inr, if◌then◌else◌,
}
use honey_potion.Bpf.{HashMap}
use honey_potion.Runtime.Values.{Generic, int}
use honey_potion.Runtime.Compare.{to_bool}
use honey_potion.Generated.Machine.{
  State, Action, Result, ok, bind_ok, ◌>>◌, pure, main, boot, catch, all_found,
}
use honey_potion.Generated.Access.{int_key, value_or_zero}
use honey_potion.Generated.Constants.{SyscallsEnterArgs, int_eq}
use honey_potion.Generated.Marks.{to_bool-int_eq}
use honey_potion.Generated.IoMonitor.{
  Tallies, alert, count_in, count_out, on_read, on_write, on_pread64, on_pwrite64, on_readv,
  on_writev, on_sendto, on_sendmsg, on_sendmmsg, on_recvfrom, on_recvmsg, on_recvmmsg, disk_cond,
  network_cond, disk_monitor_main, network_monitor_main,
}

-- Which map a call is counted in, if any.
pub data Side : Type 0 where
  into out_of neither : Side

-- read, pread64 and readv count as reads, write, pwrite64 and writev as writes; those of task 0
-- are left out.
abbrev pub disk_side : ℤ → ℤ → Side
disk_side pid id =
    if beq_ℤ pid (pos 0)
    then neither
    else if beq_ℤ id (pos 0)
    then into
    else if beq_ℤ id (pos 1)
    then out_of
    else if beq_ℤ id (pos 17)
    then into
    else if beq_ℤ id (pos 18)
    then out_of
    else if beq_ℤ id (pos 19)
    then into
    else if beq_ℤ id (pos 20)
    then out_of
    else neither

-- sendto, sendmsg and sendmmsg count as sent, recvfrom, recvmsg and recvmmsg as received.
abbrev pub network_side : ℤ → ℤ → Side
network_side pid id =
    if beq_ℤ pid (pos 0)
    then neither
    else if beq_ℤ id (pos 44)
    then into
    else if beq_ℤ id (pos 46)
    then into
    else if beq_ℤ id (pos 307)
    then into
    else if beq_ℤ id (pos 45)
    then out_of
    else if beq_ℤ id (pos 47)
    then out_of
    else if beq_ℤ id (pos 299)
    then out_of
    else neither

module _ (bpf : HashMap int_key Generic) where
  open bpf use {Map, lookup, update}

  abbrev pub flag : ℤ → ℤ → Generic
  flag threshold total = int (if ltb_ℤ threshold total then pos 1 else pos 0)

  abbrev pub next : Map → ℤ → ℤ
  next m pid = s32 (value_or_zero (lookup m pid) +ℤ pos 1)

  abbrev pub stepped : ℤ → Side → ℤ → Tallies bpf → Tallies bpf
  stepped threshold into pid m = record m {
    ins = update m.ins pid (int (next m.ins pid));
    alerts =
        update m.alerts pid
          (flag threshold (s32 (next m.ins pid +ℤ value_or_zero (lookup m.outs pid))));
  }
  stepped threshold out_of pid m = record m {
    outs = update m.outs pid (int (next m.outs pid));
    alerts =
        update m.alerts pid
          (flag threshold (s32 (value_or_zero (lookup m.ins pid) +ℤ next m.outs pid)));
  }
  stepped threshold neither pid m = m

  -- `s` is a state whose maps are those of one step of `side`, after a normal return.
  abbrev pub Steps :
      ℤ → Side → ℤ → State (Tallies bpf) → Result (Unit {0}) × State (Tallies bpf) → Type 0
  Steps threshold side pid s r = (r.0 ≡ ok tt) × (r.1.maps ≡ stepped threshold side pid s.maps)

  count_in-Steps :
      (threshold pid : ℤ) (alert_text text : String) (s : State (Tallies bpf))
      → Steps threshold into pid s (count_in bpf threshold alert_text text pid s)
  unfolding count_in alert
  count_in-Steps threshold pid alert_text text s =
      elim (Bool-cases
        (ltb_ℤ threshold (s32 (next s.maps.ins pid +ℤ value_or_zero (lookup s.maps.outs pid))))) [
          | inl above ↦ rw (count_in, alert, above) (refl, refl)
          | inr below ↦ rw (count_in, alert, below) (refl, refl)
        ]

  count_out-Steps :
      (threshold pid : ℤ) (alert_text text : String) (s : State (Tallies bpf))
      → Steps threshold out_of pid s (count_out bpf threshold alert_text text pid s)
  unfolding count_out alert
  count_out-Steps threshold pid alert_text text s =
      elim (Bool-cases
        (ltb_ℤ threshold (s32 (value_or_zero (lookup s.maps.ins pid) +ℤ next s.maps.outs pid)))) [
          | inl above ↦ rw (count_out, alert, above) (refl, refl)
          | inr below ↦ rw (count_out, alert, below) (refl, refl)
        ]

  -- A test of the generated code, by the comparison that it stands for.
  chosen :
      (a b threshold pid : ℤ) (side other : Side) (s : State (Tallies bpf))
      (f g : Action (Tallies bpf) (Unit {0}))
      → Steps threshold side pid s (f s)
      → Steps threshold other pid s (g s)
      → Steps threshold
          (if beq_ℤ a b then side else other)
          pid
          s
          ((if to_bool (int_eq a b) then f else g) s)
  chosen a b threshold pid side other s f g taken left = elim (Bool-cases (beq_ℤ a b)) [
    | inl e ↦ rw (to_bool-int_eq a b, e) taken
    | inr e ↦ rw (to_bool-int_eq a b, e) left
  ]

  skipped : (threshold pid : ℤ) (s : State (Tallies bpf)) → Steps threshold neither pid s (ok tt, s)
  skipped threshold pid s = (refl, refl)

  disk_cond-Steps :
      (pid id : ℤ) (s : State (Tallies bpf))
      → Steps (pos 10000) (disk_side pid id) pid s (disk_cond bpf pid id s)
  unfolding disk_cond on_read on_write on_pread64 on_pwrite64 on_readv on_writev
  disk_cond-Steps pid id s =
      let t = pos 10000 in
      chosen pid (pos 0) t pid neither _ s _ _ (skipped t pid s) (
        chosen id (pos 0) t pid into _ s _ _ (count_in-Steps t pid _ _ s) (
          chosen id (pos 1) t pid out_of _ s _ _ (count_out-Steps t pid _ _ s) (
            chosen id (pos 17) t pid into _ s _ _ (count_in-Steps t pid _ _ s) (
              chosen id (pos 18) t pid out_of _ s _ _ (count_out-Steps t pid _ _ s) (
                chosen id (pos 19) t pid into _ s _ _ (count_in-Steps t pid _ _ s) (
                  chosen id (pos 20) t pid out_of neither s _ _ (count_out-Steps t pid _ _ s)
                    (skipped t pid s)))))))

  network_cond-Steps :
      (pid id : ℤ) (s : State (Tallies bpf))
      → Steps (pos 50000) (network_side pid id) pid s (network_cond bpf pid id s)
  unfolding network_cond on_sendto on_sendmsg on_sendmmsg on_recvfrom on_recvmsg on_recvmmsg
  network_cond-Steps pid id s =
      let t = pos 50000 in
      chosen pid (pos 0) t pid neither _ s _ _ (skipped t pid s) (
        chosen id (pos 44) t pid into _ s _ _ (count_in-Steps t pid _ _ s) (
          chosen id (pos 46) t pid into _ s _ _ (count_in-Steps t pid _ _ s) (
            chosen id (pos 307) t pid into _ s _ _ (count_in-Steps t pid _ _ s) (
              chosen id (pos 45) t pid out_of _ s _ _ (count_out-Steps t pid _ _ s) (
                chosen id (pos 47) t pid out_of _ s _ _ (count_out-Steps t pid _ _ s) (
                  chosen id (pos 299) t pid out_of neither s _ _ (count_out-Steps t pid _ _ s)
                    (skipped t pid s)))))))

  -- A main_func whose user code makes one step and returns 0.
  abbrev Ends : ℤ → Side → ℤ → State (Tallies bpf) → ℤ × State (Tallies bpf) → Type 0
  Ends threshold side pid s r = (r.0 ≡ pos 0) × (r.1.maps ≡ stepped threshold side pid s.maps)

  main-Ends :
      (threshold pid : ℤ) (side : Side) (s : State (Tallies bpf))
      (user : Action (Tallies bpf) (Unit {0}))
      → ((t : State (Tallies bpf)) → Steps threshold side pid t (user t))
      → Ends threshold side pid s (main all_found (user >> pure (pos 0)) s)
  unfolding main boot catch
  main-Ends threshold pid side s user steps =
      let t = (boot all_found s).1 in
      let done : user t ≡ (ok tt, (user t).1) = ap (λ r. (r, (user t).1)) (steps t).0 in
      let ended : (user >> pure (pos 0)) t ≡ (ok (pos 0), (user t).1) =
        bind_ok user (λ x. pure (pos 0)) done in
      (ap (λ r. (catch r).0) ended, ap (λ r. (catch r).1.maps) ended ∙ (steps t).1)

  pub disk_monitor_main-Ends :
      (ctx : SyscallsEnterArgs) (pid_tgid : ℤ) (s : State (Tallies bpf))
      → Ends
          (pos 10000)
          (disk_side (s32 pid_tgid) (s32 ctx.id))
          (s32 pid_tgid)
          s
          (disk_monitor_main bpf all_found ctx pid_tgid s)
  unfolding disk_monitor_main
  disk_monitor_main-Ends ctx pid_tgid s =
      main-Ends (pos 10000) (s32 pid_tgid) _ s (disk_cond bpf (s32 pid_tgid) (s32 ctx.id))
        (disk_cond-Steps (s32 pid_tgid) (s32 ctx.id))

  pub network_monitor_main-Ends :
      (ctx : SyscallsEnterArgs) (pid_tgid : ℤ) (s : State (Tallies bpf))
      → Ends
          (pos 50000)
          (network_side (s32 pid_tgid) (s32 ctx.id))
          (s32 pid_tgid)
          s
          (network_monitor_main bpf all_found ctx pid_tgid s)
  unfolding network_monitor_main
  network_monitor_main-Ends ctx pid_tgid s =
      main-Ends (pos 50000) (s32 pid_tgid) _ s (network_cond bpf (s32 pid_tgid) (s32 ctx.id))
        (network_cond-Steps (s32 pid_tgid) (s32 ctx.id))
