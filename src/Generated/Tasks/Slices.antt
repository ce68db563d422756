-- ===== src/Generated/Tasks/Slices.antt =====
-- What CpuMonitor adds to the time of a task between the switch to it and the switch from it.
use honey_potion.Base.{
  ℕ, ◌≡◌, refl, sym, ap, ◌∙◌, Bool-cases, inl, inr, false, ◌==◌, pos, ◌+ℤ◌, ◌-ℤ◌, s32, ltb_ℤ, List,
  [], ◌∷◌,
}
use mathlib.Core.Path.{subst}
use honey_potion.Bpf.Array.{ArrayMap}
use honey_potion.Runtime.Values.{Generic}
use honey_potion.Generated.Machine.{State, all_found}
use honey_potion.Generated.Tasks.{SchedSwitchArgs, CpuTimes, cpu_monitor_main}
use honey_potion.Generated.Tasks.Switches.{
  index_of, stepped, step-stepped, total, begun, IsInside, stepped-from_other, stepped-to_other,
  stepped-from, stepped-to, stepped-IsInside,
}

-- A switch with the clock that the program reads.
pub record Switch : Type 0 where
  pub ctx : SchedSwitchArgs
  pub ktime : ℕ

abbrev pub prev : Switch → ℕ
prev w = index_of w.ctx.prev_pid

abbrev pub next : Switch → ℕ
next w = index_of w.ctx.next_pid

-- The number of the task that leaves passes the first clause of the cond.
abbrev pub IsAccepted : Switch → Type 0
IsAccepted w = ltb_ℤ (pos 41943040) (s32 (pos w.ctx.prev_pid)) ≡ false

module _ (bpf : ArrayMap Generic) where
  abbrev pub switch : State (CpuTimes bpf) → Switch → State (CpuTimes bpf)
  switch s w = (cpu_monitor_main bpf all_found w.ctx w.ktime s).1

  abbrev pub run : State (CpuTimes bpf) → List Switch → State (CpuTimes bpf)
  run s [] = s
  run s (w ∷ ws) = run (switch s w) ws

  -- No switch is to the task or from it.
  abbrev pub Avoids : ℕ → List Switch → Type 0
  Avoids p [] = Unit {0}
  Avoids p (w ∷ ws) = ((prev w == p) ≡ false) × ((next w == p) ≡ false) × Avoids p ws

  accepted-maps :
      (s : State (CpuTimes bpf)) (w : Switch)
      → IsAccepted w
      → (switch s w).maps ≡ stepped bpf s.maps (s32 (pos w.ktime)) (prev w) (next w)
  accepted-maps s w accepted = step-stepped bpf w.ctx w.ktime s ∙ rw accepted refl

  -- What holds of a task's times holds after a switch that avoids it.
  abbrev Keeps : ℕ → CpuTimes bpf → CpuTimes bpf → Type 0
  Keeps p m n =
      (total bpf n p ≡ total bpf m p)
      × (begun bpf n p ≡ begun bpf m p)
      × (IsInside bpf m p → IsInside bpf n p)

  switch-Keeps :
      (s : State (CpuTimes bpf)) (w : Switch) (p : ℕ)
      → (prev w == p) ≡ false
      → (next w == p) ≡ false
      → Keeps p s.maps (switch s w).maps
  switch-Keeps s w p from to = elim (Bool-cases (ltb_ℤ (pos 41943040) (s32 (pos w.ctx.prev_pid)))) [
    | inl out ↦
        let same = step-stepped bpf w.ctx w.ktime s ∙ rw out refl in
        subst (Keeps p s.maps) (sym same) (refl, refl, λ h. h)
    | inr accepted ↦ subst (Keeps p s.maps) (sym (accepted-maps s w accepted)) (
      stepped-from_other bpf s.maps (s32 (pos w.ktime)) (prev w) (next w) p from,
      stepped-to_other bpf s.maps (s32 (pos w.ktime)) (prev w) (next w) p to,
      stepped-IsInside bpf s.maps (s32 (pos w.ktime)) (prev w) (next w) p,
    )
  ]

  run-Keeps :
      (ws : List Switch) (s : State (CpuTimes bpf)) (p : ℕ)
      → Avoids p ws
      → Keeps p s.maps (run s ws).maps
  run-Keeps [] s p avoids = (refl, refl, λ h. h)
  run-Keeps (w ∷ ws) s p (from, to, avoids) =
      let one = switch-Keeps s w p from to in
      let rest = run-Keeps ws (switch s w) p avoids in
      (rest.0 ∙ one.0, rest.1 ∙ one.1, λ h. rest.2 (one.2 h))

  -- Between a switch to a task and the next one from it, whatever other tasks do, the time of the
  -- task grows by the difference of the two clock readings, computed in an `int` as the sum is,
  -- if the numbers of the tasks that leave pass the test and lie inside the arrays.
  pub run-slice :
      (s : State (CpuTimes bpf)) (first last : Switch) (between : List Switch) (p : ℕ)
      → next first ≡ p
      → prev last ≡ p
      → (prev first == p) ≡ false
      → IsAccepted first
      → IsAccepted last
      → IsInside bpf s.maps (prev first)
      → IsInside bpf s.maps p
      → Avoids p between
      → total bpf (switch (run (switch s first) between) last).maps p
        ≡ s32 (total bpf s.maps p +ℤ s32 (s32 (pos last.ktime) -ℤ s32 (pos first.ktime)))
  run-slice s first last between p to from other ok_first ok_last inside_first inside avoids =
      let a = switch s first in
      let b = run a between in
      let enter = accepted-maps s first ok_first in
      let inside_next : IsInside bpf s.maps (next first) =
        subst (IsInside bpf s.maps) (sym to) inside in
      let inside_a : IsInside bpf a.maps p =
        subst (λ m. IsInside bpf m p) (sym enter)
          (stepped-IsInside bpf s.maps (s32 (pos first.ktime)) (prev first) (next first) p
            inside) in
      let total_a : total bpf a.maps p ≡ total bpf s.maps p =
        ap (λ m. total bpf m p) enter
        ∙ stepped-from_other bpf s.maps (s32 (pos first.ktime)) (prev first) (next first) p other in
      let begun_a : begun bpf a.maps p ≡ s32 (pos first.ktime) =
        ap (λ m. begun bpf m p) enter
        ∙ ap (begun bpf (stepped bpf s.maps (s32 (pos first.ktime)) (prev first) (next first)))
            (sym to)
        ∙ stepped-to bpf s.maps (pos first.ktime) (prev first) (next first) inside_first
            inside_next in
      let kept = run-Keeps between a p avoids in
      let inside_b = kept.2 inside_a in
      ap (λ m. total bpf m p) (accepted-maps b last ok_last)
      ∙ ap (λ i. total bpf (stepped bpf b.maps (s32 (pos last.ktime)) i (next last)) p) from
      ∙ stepped-from bpf b.maps (s32 (pos last.ktime)) p (next last) inside_b
      ∙ rw (kept.0 ∙ total_a, kept.1 ∙ begun_a) refl
