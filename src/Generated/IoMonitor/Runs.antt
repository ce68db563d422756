-- ===== src/Generated/IoMonitor/Runs.antt =====
-- What the two monitors keep for a task over any sequence of system calls.
use mathlib.Core.Path.{subst}
use honey_potion.Base.{
  ℕ, suc, ◌+◌, ◌<◌, ◌^◌, ℤ, pos, ◌≡◌, ◌∙◌, ap, sym, s32, beq_ℤ, Bool-cases, inl, inr, List, [], ◌∷◌,
  length, arith,
}
use honey_potion.Bpf.{HashMap}
use honey_potion.Runtime.Values.{Generic}
use honey_potion.Generated.Machine.{State, all_found}
use honey_potion.Generated.Access.{int_key}
use honey_potion.Generated.Constants.{SyscallsEnterArgs}
use honey_potion.Generated.IoMonitor.{Tallies, disk_monitor_main, network_monitor_main}
use honey_potion.Generated.IoMonitor.Steps.{
  Side, disk_side, network_side, stepped, disk_monitor_main-Ends, network_monitor_main-Ends,
}
use honey_potion.Generated.IoMonitor.Totals.{
  Call, calls_into, calls_out_of, IsTallied, HasRoom, retally, one_call, one_into-is_into,
  one_out_of-is_out_of, stepped-same, stepped-other,
}

module _ (bpf : HashMap int_key Generic) where
  abbrev pub Program : Type 0
  Program = SyscallsEnterArgs → ℤ → State (Tallies bpf) → ℤ × State (Tallies bpf)

  -- The program runs at each of the calls.
  abbrev pub run : Program → State (Tallies bpf) → List Call → State (Tallies bpf)
  run program s [] = s
  run program s (c ∷ cs) = run program (program c.ctx c.pid_tgid s).1 cs

  -- A program whose main_func makes the step of a side.
  module _ (program : Program) (side : ℤ → ℤ → Side) (threshold : ℕ)
      (ends : (ctx : SyscallsEnterArgs) (pid_tgid : ℤ) (s : State (Tallies bpf))
        → (program ctx pid_tgid s).1.maps
          ≡ stepped bpf
              (pos threshold)
              (side (s32 pid_tgid) (s32 ctx.id))
              (s32 pid_tgid)
              s.maps) where
    step :
        (c : Call) (s : State (Tallies bpf)) (p : ℤ) (a b k : ℕ)
        → HasRoom bpf (suc k) s.maps
        → a + b + 1 < 2 ^ 31
        → IsTallied bpf threshold p a b s.maps
        → let t = (program c.ctx c.pid_tgid s).1 in
          IsTallied bpf threshold p
            (a + calls_into side p (c ∷ []))
            (b + calls_out_of side p (c ∷ []))
            t.maps
          × HasRoom bpf k t.maps
    step c s p a b k room small tallied = elim (Bool-cases (beq_ℤ (s32 c.pid_tgid) p)) [
      | inl own ↦
          let at : s32 c.pid_tgid ≡ p = (int_key.beq_iff (s32 c.pid_tgid) p).0 own in
          let made = sym (
            ends c.ctx c.pid_tgid s
            ∙ ap (λ (q : ℤ). stepped bpf (pos threshold) (side q (s32 c.ctx.id)) q s.maps) at) in
          let h =
            stepped-same bpf threshold (side p (s32 c.ctx.id)) p a b k s.maps room small tallied in
          let counted =
            retally bpf threshold p _
              (one_into-is_into (side p (s32 c.ctx.id)) a ∙ rw (own, at) (omega arith))
              (one_out_of-is_out_of (side p (s32 c.ctx.id)) b ∙ rw (own, at) (omega arith)) h.0 in
          (subst (IsTallied bpf threshold p _ _) made counted, subst (HasRoom bpf k) made h.1)
      | inr ne ↦
          let made = sym (ends c.ctx c.pid_tgid s) in
          let h =
            stepped-other bpf threshold (side (s32 c.pid_tgid) (s32 c.ctx.id)) (s32 c.pid_tgid) p a
              b k s.maps room ne tallied in
          let counted = retally bpf threshold p _ (rw ne (omega arith)) (rw ne (omega arith)) h.0 in
          (subst (IsTallied bpf threshold p _ _) made counted, subst (HasRoom bpf k) made h.1)
    ]

    pub run-IsTallied :
        (cs : List Call) (s : State (Tallies bpf)) (p : ℤ) (a b : ℕ)
        → HasRoom bpf (length cs) s.maps
        → a + b + length cs < 2 ^ 31
        → IsTallied bpf threshold p a b s.maps
        → IsTallied bpf threshold p
            (a + calls_into side p cs)
            (b + calls_out_of side p cs)
            (run program s cs).maps
    run-IsTallied [] s p a b room small tallied =
        retally bpf threshold p _ (omega arith) (omega arith) tallied
    run-IsTallied (c ∷ cs) s p a b room small tallied =
        let t = (program c.ctx c.pid_tgid s).1 in
        let h = step c s p a b (length cs) room (omega arith) tallied in
        let once = one_call side p c in
        retally bpf threshold p _ (omega arith) (omega arith) (
          run-IsTallied cs t p (a + calls_into side p (c ∷ [])) (b + calls_out_of side p (c ∷ []))
            h.1 (omega arith) h.0)

  -- Over any sequence of system calls for which the maps have room, an entry for each, the monitor of
  -- disks counts for each task exactly its reads and its writes, and the flag of the task tells at
  -- the end whether their sum is above 10000, if the two counts at the start and the number of all
  -- calls add up to less than 2^31.
  pub run-disk_totals :
      (cs : List Call) (s : State (Tallies bpf)) (p : ℤ) (a b : ℕ)
      → HasRoom bpf (length cs) s.maps
      → a + b + length cs < 2 ^ 31
      → IsTallied bpf 10000 p a b s.maps
      → IsTallied bpf 10000 p
          (a + calls_into disk_side p cs)
          (b + calls_out_of disk_side p cs)
          (run (disk_monitor_main bpf all_found) s cs).maps
  run-disk_totals =
      run-IsTallied (disk_monitor_main bpf all_found) disk_side 10000
        (λ ctx pid_tgid s. (disk_monitor_main-Ends bpf ctx pid_tgid s).1)

  -- The monitor of networks does the same for the calls that send and those that receive, with
  -- the threshold 50000.
  run-network_totals :
      (cs : List Call) (s : State (Tallies bpf)) (p : ℤ) (a b : ℕ)
      → HasRoom bpf (length cs) s.maps
      → a + b + length cs < 2 ^ 31
      → IsTallied bpf 50000 p a b s.maps
      → IsTallied bpf 50000 p
          (a + calls_into network_side p cs)
          (b + calls_out_of network_side p cs)
          (run (network_monitor_main bpf all_found) s cs).maps
  run-network_totals =
      run-IsTallied (network_monitor_main bpf all_found) network_side 50000
        (λ ctx pid_tgid s. (network_monitor_main-Ends bpf ctx pid_tgid s).1)
