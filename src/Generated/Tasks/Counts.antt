-- ===== src/Generated/Tasks/Counts.antt =====
-- What MemoryMonitor counts for a task over any sequence of system calls.
use mathlib.Core.Path.{subst}
use honey_potion.Base.{
  ℕ, suc, ◌+◌, ◌≤◌, ◌<◌, ◌^◌, ℤ, pos, ◌≡◌, refl, ◌∙◌, ap, sym, s32, beq_ℤ, ◌&&◌, Bool-cases, inl,
  inr, if◌then◌else◌, List, [], ◌∷◌, length, arith,
}
use honey_potion.Bpf.{HashMap}
use honey_potion.Runtime.Values.{Generic, int}
use honey_potion.Generated.Machine.{State, main, boot, catch, all_found}
use honey_potion.Generated.Access.{int_key, value_or_zero}
use honey_potion.Generated.Marks.{to_bool-int_eq}
use honey_potion.Generated.Tallies.{int_successor}
use honey_potion.Generated.IoMonitor.Totals.{Call, other, same, less}
use honey_potion.Generated.Tasks.{
  MemoryCounts, next_count, on_mmap, on_munmap, on_brk, memory_cond, memory_monitor_main,
}

-- The calls of the task `p` with the number `id`.
abbrev pub calls_of : ℤ → ℤ → List Call → ℕ
calls_of id p [] = 0
calls_of id p (c ∷ cs) =
    (if beq_ℤ (s32 c.ctx.id) id && beq_ℤ (s32 c.pid_tgid) p then 1 else 0) + calls_of id p cs

module _ (bpf : HashMap int_key Generic) where
  open bpf use {Map, lookup, update, size, max_entries}

  abbrev counted : ℤ → ℤ → MemoryCounts bpf → MemoryCounts bpf
  counted id pid m =
      if beq_ℤ id (pos 9)
      then record m { mmap_count = update m.mmap_count pid (int (next_count bpf m.mmap_count pid)) }
      else if beq_ℤ id (pos 11)
      then record m {
        munmap_count = update m.munmap_count pid (int (next_count bpf m.munmap_count pid));
      }
      else if beq_ℤ id (pos 12)
      then record m { brk_count = update m.brk_count pid (int (next_count bpf m.brk_count pid)) }
      else m

  main-counted :
      (c : Call) (s : State (MemoryCounts bpf))
      → (memory_monitor_main bpf all_found c.ctx c.pid_tgid s).1.maps
        ≡ counted (s32 c.ctx.id) (s32 c.pid_tgid) s.maps
  unfolding memory_monitor_main main boot catch memory_cond on_mmap on_munmap on_brk
  main-counted c s = elim (Bool-cases (beq_ℤ (s32 c.ctx.id) (pos 9))) [
    | inl a ↦
        rw
          (
            memory_monitor_main,
            main,
            boot,
            catch,
            memory_cond,
            on_mmap,
            to_bool-int_eq (s32 c.ctx.id) (pos 9),
            a,
          )
          refl
    | inr not_a ↦ elim (Bool-cases (beq_ℤ (s32 c.ctx.id) (pos 11))) [
      | inl b ↦
          rw
            (
              memory_monitor_main,
              main,
              boot,
              catch,
              memory_cond,
              on_munmap,
              to_bool-int_eq (s32 c.ctx.id) (pos 9),
              to_bool-int_eq (s32 c.ctx.id) (pos 11),
              not_a,
              b,
            )
            refl
      | inr not_b ↦ elim (Bool-cases (beq_ℤ (s32 c.ctx.id) (pos 12))) [
        | inl d ↦
            rw
              (
                memory_monitor_main,
                main,
                boot,
                catch,
                memory_cond,
                on_brk,
                to_bool-int_eq (s32 c.ctx.id) (pos 9),
                to_bool-int_eq (s32 c.ctx.id) (pos 11),
                to_bool-int_eq (s32 c.ctx.id) (pos 12),
                not_a,
                not_b,
                d,
              )
              refl
        | inr not_d ↦
            rw
              (
                memory_monitor_main,
                main,
                boot,
                catch,
                memory_cond,
                to_bool-int_eq (s32 c.ctx.id) (pos 9),
                to_bool-int_eq (s32 c.ctx.id) (pos 11),
                to_bool-int_eq (s32 c.ctx.id) (pos 12),
                not_a,
                not_b,
                not_d,
              )
              refl
      ]
    ]
  ]

  -- One map: a count of the task `p`, with room for `k` entries.
  abbrev IsCount : ℤ → ℕ → ℕ → Map → Type 0
  IsCount p n k m = (value_or_zero (lookup m p) ≡ pos n) × (size m + k ≤ max_entries)

  update-IsCount :
      (m : Map) (pid p : ℤ) (n k : ℕ)
      → IsCount p n (suc k) m
      → n + 1 < 2 ^ 31
      → IsCount p (n + (if beq_ℤ pid p then 1 else 0)) k (update m pid (int (next_count bpf m pid)))
  update-IsCount m pid p n k (value, room) small = elim (Bool-cases (beq_ℤ pid p)) [
    | inl own ↦
        let at : pid ≡ p = (int_key.beq_iff pid p).0 own in
        let new : next_count bpf m p ≡ pos (n + 1) = rw value (int_successor n small) in
        rw (own, at, new) (same bpf m p (n + 1) k room small)
    | inr ne ↦
        let h = other bpf m pid p (int (next_count bpf m pid)) k room ne in
        rw ne (h.0 ∙ value ∙ ap pos (omega arith), h.1)
  ]

  idle-IsCount : (m : Map) (p : ℤ) (n k : ℕ) → IsCount p n (suc k) m → IsCount p (n + 0) k m
  idle-IsCount m p n k (value, room) = (value ∙ ap pos (omega arith), less bpf m k room)

  -- The three counts of the task `p`, each with room for `k` entries.
  abbrev pub AreCounts : ℤ → ℕ → ℕ → ℕ → ℕ → MemoryCounts bpf → Type 0
  AreCounts p a b d k m =
      IsCount p a k m.mmap_count × IsCount p b k m.munmap_count × IsCount p d k m.brk_count

  abbrev one : ℤ → ℤ → ℤ → ℤ → ℕ
  one id wanted pid p = if beq_ℤ id wanted && beq_ℤ pid p then 1 else 0

  counted-AreCounts :
      (id pid p : ℤ) (a b d k : ℕ) (m : MemoryCounts bpf)
      → AreCounts p a b d (suc k) m
      → a + b + d + 1 < 2 ^ 31
      → AreCounts p
          (a + one id (pos 9) pid p)
          (b + one id (pos 11) pid p)
          (d + one id (pos 12) pid p)
          k
          (counted id pid m)
  counted-AreCounts id pid p a b d k m (mmap, munmap, brk) small =
      elim (Bool-cases (beq_ℤ id (pos 9))) [
        | inl e ↦ rw ((int_key.beq_iff id (pos 9)).0 e) (
          update-IsCount m.mmap_count pid p a k mmap (omega arith),
          idle-IsCount m.munmap_count p b k munmap,
          idle-IsCount m.brk_count p d k brk,
        )
        | inr not_mmap ↦ elim (Bool-cases (beq_ℤ id (pos 11))) [
          | inl e ↦ rw ((int_key.beq_iff id (pos 11)).0 e) (
            idle-IsCount m.mmap_count p a k mmap,
            update-IsCount m.munmap_count pid p b k munmap (omega arith),
            idle-IsCount m.brk_count p d k brk,
          )
          | inr not_munmap ↦ elim (Bool-cases (beq_ℤ id (pos 12))) [
            | inl e ↦ rw ((int_key.beq_iff id (pos 12)).0 e) (
              idle-IsCount m.mmap_count p a k mmap,
              idle-IsCount m.munmap_count p b k munmap,
              update-IsCount m.brk_count pid p d k brk (omega arith),
            )
            | inr not_brk ↦
                rw (not_mmap, not_munmap, not_brk)
                  (
                    idle-IsCount m.mmap_count p a k mmap,
                    idle-IsCount m.munmap_count p b k munmap,
                    idle-IsCount m.brk_count p d k brk,
                  )
          ]
        ]
      ]

  one_call :
      (id pid p : ℤ) → one id (pos 9) pid p + one id (pos 11) pid p + one id (pos 12) pid p ≤ 1
  one_call id pid p = ground arith

  abbrev pub run : State (MemoryCounts bpf) → List Call → State (MemoryCounts bpf)
  run s [] = s
  run s (c ∷ cs) = run (memory_monitor_main bpf all_found c.ctx c.pid_tgid s).1 cs

  recount :
      (p : ℤ) {a a' b b' d d' : ℕ} (k : ℕ) (m : MemoryCounts bpf)
      → a ≡ a'
      → b ≡ b'
      → d ≡ d'
      → AreCounts p a b d k m
      → AreCounts p a' b' d' k m
  recount p k m ea eb ed ((a, ra), (b, rb), (d, rd)) =
      ((a ∙ ap pos ea, ra), (b ∙ ap pos eb, rb), (d ∙ ap pos ed, rd))

  -- Over any sequence of system calls for which the maps have room, an entry for each, the three
  -- counts of a task grow by its calls of mmap, munmap and brk, if the three counts and the number of
  -- all calls add up to less than 2^31; all other calls and all other tasks leave them.
  pub run-AreCounts :
      (cs : List Call) (s : State (MemoryCounts bpf)) (p : ℤ) (a b d : ℕ)
      → AreCounts p a b d (length cs) s.maps
      → a + b + d + length cs < 2 ^ 31
      → AreCounts p
          (a + calls_of (pos 9) p cs)
          (b + calls_of (pos 11) p cs)
          (d + calls_of (pos 12) p cs)
          0
          (run s cs).maps
  run-AreCounts [] s p a b d counts small =
      recount p 0 s.maps (omega arith) (omega arith) (omega arith) counts
  run-AreCounts (c ∷ cs) s p a b d counts small =
      let id = s32 c.ctx.id in
      let pid = s32 c.pid_tgid in
      let t = (memory_monitor_main bpf all_found c.ctx c.pid_tgid s).1 in
      let once = one_call id pid p in
      let next = counted-AreCounts id pid p a b d (length cs) s.maps counts (omega arith) in
      let here =
        subst
          (AreCounts p (a + one id (pos 9) pid p) (b + one id (pos 11) pid p)
            (d + one id (pos 12) pid p) (length cs))
          (sym (main-counted c s)) next in
      recount p 0 (run t cs).maps (omega arith) (omega arith) (omega arith) (
        run-AreCounts cs t p (a + one id (pos 9) pid p) (b + one id (pos 11) pid p)
          (d + one id (pos 12) pid p) here (omega arith))
