-- ===== src/Generated/Tasks/Switches.antt =====
-- How one switch changes the times that CpuMonitor keeps.
use honey_potion.Base.{
  ℕ, ◌<◌, ◌≡◌, refl, ap, Bool-cases, Option-cases, inl, inr, false, none, some, ◌==◌, if◌then◌else◌,
  ℤ, pos, ◌+ℤ◌, ◌-ℤ◌, s32, ltb_ℤ, to_unsigned, arith,
}
use honey_potion.Bpf.Array.{ArrayMap}
use honey_potion.Runtime.Values.{Generic, int, as_integer}
use honey_potion.Generated.Machine.{State, main, boot, catch, all_found}
use honey_potion.Generated.Access.{value_or_fail, value_or_zero, stored-same, stored-other}
use honey_potion.Generated.Tasks.{
  SchedSwitchArgs, CpuTimes, switch_times, switch_cond, cpu_monitor_main,
}

-- The entry of a task in the two arrays.
abbrev pub index_of : ℕ → ℕ
index_of pid = to_unsigned (s32 (pos pid))

module _ (bpf : ArrayMap Generic) where
  open bpf use {Map, lookup, store, max_entries}

  -- One switch to which the times of a task are not out of bounds.
  abbrev pub stepped : CpuTimes bpf → ℤ → ℕ → ℕ → CpuTimes bpf
  stepped m ts i j = elim (lookup m.start_time i) [
    | none ↦ m
    | some g ↦ elim (lookup m.total_time i) [
      | none ↦ m
      | some h ↦ record {
        total_time =
            store m.total_time i
              (int (s32 (s32 (as_integer h.value) +ℤ s32 (ts -ℤ s32 (as_integer g.value)))));
        start_time = store m.start_time j (int ts);
      }
    ]
  ]

  pub step-stepped :
      (ctx : SchedSwitchArgs) (ktime : ℕ) (s : State (CpuTimes bpf))
      → (cpu_monitor_main bpf all_found ctx ktime s).1.maps ≡ (
          if ltb_ℤ (pos 41943040) (s32 (pos ctx.prev_pid))
          then s.maps
          else stepped s.maps (s32 (pos ktime)) (index_of ctx.prev_pid) (index_of ctx.next_pid))
  unfolding cpu_monitor_main main boot catch switch_cond switch_times value_or_fail
  step-stepped ctx ktime s = elim (Bool-cases (ltb_ℤ (pos 41943040) (s32 (pos ctx.prev_pid)))) [
    | inl out ↦ rw (cpu_monitor_main, main, boot, catch, switch_cond, out) refl
    | inr ok ↦ elim (Option-cases (lookup s.maps.start_time (index_of ctx.prev_pid))) [
      | inl none_start ↦
          rw
            (
              cpu_monitor_main, main, boot, catch, switch_cond, ok, stepped, switch_times,
              value_or_fail, none_start,
            )
            refl
      | inr (g, start) ↦ elim (Option-cases (lookup s.maps.total_time (index_of ctx.prev_pid))) [
        | inl none_total ↦
            rw
              (
                cpu_monitor_main, main, boot, catch, switch_cond, ok, stepped, switch_times,
                value_or_fail, start, none_total,
              )
              refl
        | inr (h, total) ↦
            rw
              (
                cpu_monitor_main, main, boot, catch, switch_cond, ok, stepped, switch_times,
                value_or_fail, start, total,
              )
              refl
      ]
    ]
  ]

  abbrev pub total : CpuTimes bpf → ℕ → ℤ
  total m i = value_or_zero (lookup m.total_time i)

  abbrev pub begun : CpuTimes bpf → ℕ → ℤ
  begun m i = value_or_zero (lookup m.start_time i)

  -- The index lies inside both arrays.
  abbrev pub IsInside : CpuTimes bpf → ℕ → Type 0
  IsInside m i = (i < max_entries m.start_time) × (i < max_entries m.total_time)

  found : (m : Map) (i : ℕ) → i < max_entries m → (g : Generic) × (lookup m i ≡ some g)
  found m i inside = elim (Option-cases (lookup m i)) [
    | inl gone ↦ absurd (ground (arith, bpf.lookup_inside m i inside, gone))
    | inr h ↦ h
  ]

  -- A switch from another task, and one to another task.
  pub stepped-from_other :
      (m : CpuTimes bpf) (ts : ℤ) (i j k : ℕ)
      → (i == k) ≡ false
      → total (stepped m ts i j) k ≡ total m k
  stepped-from_other m ts i j k ne = elim (Option-cases (lookup m.start_time i)) [
    | inl none_start ↦ rw (none_start, stepped) refl
    | inr (g, start) ↦ elim (Option-cases (lookup m.total_time i)) [
      | inl none_total ↦ rw (start, none_total, stepped) refl
      | inr (h, before) ↦
          rw (start, before, stepped) (ap value_or_zero (stored-other bpf m.total_time i k _ ne))
    ]
  ]

  pub stepped-to_other :
      (m : CpuTimes bpf) (ts : ℤ) (i j k : ℕ)
      → (j == k) ≡ false
      → begun (stepped m ts i j) k ≡ begun m k
  stepped-to_other m ts i j k ne = elim (Option-cases (lookup m.start_time i)) [
    | inl none_start ↦ rw (none_start, stepped) refl
    | inr (g, start) ↦ elim (Option-cases (lookup m.total_time i)) [
      | inl none_total ↦ rw (start, none_total, stepped) refl
      | inr (h, before) ↦
          rw (start, before, stepped) (ap value_or_zero (stored-other bpf m.start_time j k _ ne))
    ]
  ]

  -- A switch from the task, and one to it.
  pub stepped-from :
      (m : CpuTimes bpf) (ts : ℤ) (i j : ℕ)
      → IsInside m i
      → total (stepped m ts i j) i ≡ s32 (total m i +ℤ s32 (ts -ℤ begun m i))
  unfolding value_or_zero
  stepped-from m ts i j inside =
      let (g, start) = found m.start_time i inside.0 in
      let (h, before) = found m.total_time i inside.1 in
      rw (start, before, stepped) (stored-same bpf m.total_time i _ inside.1)

  pub stepped-to :
      (m : CpuTimes bpf) (t : ℤ) (i j : ℕ)
      → IsInside m i
      → IsInside m j
      → begun (stepped m (s32 t) i j) j ≡ s32 t
  stepped-to m t i j inside into =
      let (g, start) = found m.start_time i inside.0 in
      let (h, before) = found m.total_time i inside.1 in
      rw (start, before, stepped) (stored-same bpf m.start_time j t into.0)

  pub stepped-IsInside :
      (m : CpuTimes bpf) (ts : ℤ) (i j k : ℕ) → IsInside m k → IsInside (stepped m ts i j) k
  stepped-IsInside m ts i j k inside = elim (Option-cases (lookup m.start_time i)) [
    | inl none_start ↦ rw (none_start, stepped) inside
    | inr (g, start) ↦ elim (Option-cases (lookup m.total_time i)) [
      | inl none_total ↦ rw (start, none_total, stepped) inside
      | inr (h, before) ↦
          rw (start, before, stepped)
            (ground (
              arith,
              inside,
              bpf.max_entries-store m.start_time j (int ts),
              bpf.max_entries-store m.total_time i
                  (int (s32 (s32 (as_integer h.value) +ℤ s32 (ts -ℤ s32 (as_integer g.value))))),
            ))
    ]
  ]
