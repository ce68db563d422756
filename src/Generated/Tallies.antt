-- ===== src/Generated/Tallies.antt =====
-- What CountSyscalls keeps, over any sequence of system calls.
use honey_potion.Base.{
  ℕ, ◌+◌, ◌<◌, ◌≤◌, ◌^◌, ◌≡◌, refl, sym, ap, ◌∙◌, Option-cases, Bool-cases, true, false, inl, inr,
  none, some, ◌==◌, ==_iff, if◌then◌else◌, ℤ, pos, ◌+ℤ◌, s32, s32-eq, to_unsigned, List, [], ◌∷◌,
  arith,
}
use honey_potion.Bpf.Array.{ArrayMap}
use honey_potion.Runtime.Values.{Generic, int, as_integer}
use honey_potion.Generated.Machine.{State, caught, key_not_found, main, boot, catch, all_found}
use honey_potion.Generated.Access.{value_or_fail, value_or_zero}
use honey_potion.Generated.Constants.{SyscallsEnterArgs}
use honey_potion.Generated.Counts.{count_user, count_syscalls_main}

-- The index that a system call's number is converted to.
abbrev pub index_of : SyscallsEnterArgs → ℕ
index_of ctx = to_unsigned (s32 ctx.id)

abbrev pub calls_at : ℕ → List SyscallsEnterArgs → ℕ
calls_at k [] = 0
calls_at k (c ∷ cs) = (if index_of c == k then 1 else 0) + calls_at k cs

pub int_successor : (n : ℕ) → n + 1 < 2 ^ 31 → s32 (pos n +ℤ pos 1) ≡ pos (n + 1)
unfolding ◌+ℤ◌
int_successor n small =
    let exact : pos n +ℤ pos 1 ≡ pos (n + 1) = ground arith in
    rw exact (s32-eq (pos (n + 1)) (ground arith))

module _ (counts : ArrayMap Generic) where
  open counts use {Map, lookup, store, max_entries}

  abbrev pub count : Map → ℕ → ℤ
  count m k = value_or_zero (lookup m k)

  unfoldable pub run : State Map → List SyscallsEnterArgs → State Map
  unfolding count_syscalls_main
  run s [] = s
  run s (c ∷ cs) = run (count_syscalls_main counts all_found c s).1 cs

  -- One call that finds its entry, and one that does not.
  step_found :
      (s : State Map) (ctx : SyscallsEnterArgs) (g : Generic)
      → lookup s.maps (index_of ctx) ≡ some g
      → (count_syscalls_main counts all_found ctx s).1.maps
        ≡ store s.maps (index_of ctx) (int (s32 (s32 (as_integer g.value) +ℤ pos 1)))
  unfolding count_syscalls_main main boot catch count_user value_or_fail
  step_found s ctx g e =
      rw (e, count_syscalls_main, main, boot, catch, count_user, value_or_fail) refl

  -- A system call whose number lies outside the map raises KeyNotFound: the program prints its
  -- message, returns 0 and leaves the map alone.
  count_syscalls_main_outside :
      (s : State Map) (ctx : SyscallsEnterArgs)
      → max_entries s.maps ≤ index_of ctx
      → let r = count_syscalls_main counts all_found ctx s in
        (r.0 ≡ pos 0)
        × (r.1.maps ≡ s.maps)
        × (r.1.output ≡ caught (key_not_found "Count_Sys_Calls_Invoked") ∷ s.output)
  unfolding count_syscalls_main main boot catch count_user value_or_fail
  count_syscalls_main_outside s ctx out =
      let e = counts.lookup_outside s.maps (index_of ctx) out in
      (
        rw (e, count_syscalls_main, main, boot, catch, count_user, value_or_fail) refl,
        rw (e, count_syscalls_main, main, boot, catch, count_user, value_or_fail) refl,
        rw (e, count_syscalls_main, main, boot, catch, count_user, value_or_fail) refl,
      )

  -- The map after one call, whether its entry is there or not.
  abbrev counted : Map → ℕ → Map
  counted m i = elim (lookup m i) [
    | none ↦ m
    | some g ↦ store m i (int (s32 (s32 (as_integer g.value) +ℤ pos 1)))
  ]

  step-counted :
      (s : State Map) (ctx : SyscallsEnterArgs)
      → (count_syscalls_main counts all_found ctx s).1.maps ≡ counted s.maps (index_of ctx)
  unfolding count_syscalls_main main boot catch count_user value_or_fail
  step-counted s ctx = elim (Option-cases (lookup s.maps (index_of ctx))) [
    | inl e ↦
        rw (e, counted, count_syscalls_main, main, boot, catch, count_user, value_or_fail) refl
    | inr (g, e) ↦ step_found s ctx g e ∙ rw (e, counted) refl
  ]

  counted-other : (m : Map) (i k : ℕ) → (i == k) ≡ false → lookup (counted m i) k ≡ lookup m k
  counted-other m i k ne = elim (Option-cases (lookup m i)) [
    | inl e ↦ rw (e, counted) refl
    | inr (g, e) ↦
        rw (e, counted)
          (counts.lookup-store m i (int (s32 (s32 (as_integer g.value) +ℤ pos 1))) k
            ∙ rw (e, ne) refl)
  ]

  counted-same :
      (m : Map) (k n : ℕ)
      → k < max_entries m
      → count m k ≡ pos n
      → n + 1 < 2 ^ 31
      → count (counted m k) k ≡ pos (n + 1)
  unfolding value_or_zero
  counted-same m k n inside e small = elim (Option-cases (lookup m k)) [
    | inl gone ↦ absurd (ground (arith, counts.lookup_inside m k inside, gone))
    | inr (g, here) ↦
        let same : (k == k) ≡ true = ground arith in
        let value : s32 (as_integer g.value) ≡ pos n = ap value_or_zero (sym here) ∙ e in
        let stored : lookup (counted m k) k ≡ some (int (pos (n + 1))) =
          rw (here, counted)
            (counts.lookup-store m k (int (s32 (s32 (as_integer g.value) +ℤ pos 1))) k
              ∙ rw (here, same, value, int_successor n small) refl) in
        ap value_or_zero stored ∙ s32-eq (pos (n + 1)) (ground arith)
  ]

  counted-size : (m : Map) (i : ℕ) → max_entries (counted m i) ≡ max_entries m
  counted-size m i = elim (Option-cases (lookup m i)) [
    | inl e ↦ rw (e, counted) refl
    | inr (g, e) ↦ rw (e, counted) (counts.max_entries-store m i _)
  ]

  -- Over any sequence of system calls, the entry of a number inside the map grows by the number of
  -- calls with that number (from the zero of an array that is not written yet, or any other value)
  -- as long as it fits an `int`; the calls outside the map, which raise, disturb nothing.
  pub run-count :
      (cs : List SyscallsEnterArgs) (s : State Map) (k n : ℕ)
      → k < max_entries s.maps
      → count s.maps k ≡ pos n
      → n + calls_at k cs < 2 ^ 31
      → count (run s cs).maps k ≡ pos (n + calls_at k cs)
  unfolding run
  run-count [] s k n inside e small = e ∙ ap pos (omega arith)
  run-count (c ∷ cs) s k n inside e small =
      let t = (count_syscalls_main counts all_found c s).1 in
      let step = step-counted s c in
      let room : k < max_entries t.maps =
        rw step (omega (arith, inside, counted-size s.maps (index_of c))) in
      elim (Bool-cases (index_of c == k)) [
        | inl same ↦
            let at : index_of c ≡ k = (==_iff _ _).0 same in
            let here : calls_at k (c ∷ cs) ≡ 1 + calls_at k cs = rw same refl in
            let next : count t.maps k ≡ pos (n + 1) =
              ap (λ m. count m k) step
              ∙ ap (λ i. count (counted s.maps i) k) at
              ∙ counted-same s.maps k n inside e (omega arith) in
            run-count cs t k (n + 1) room next (omega arith) ∙ ap pos (omega arith)
        | inr ne ↦
            let here : calls_at k (c ∷ cs) ≡ calls_at k cs = rw ne (omega arith) in
            let next : count t.maps k ≡ pos n =
              ap (λ m. count m k) step
              ∙ ap value_or_zero (counted-other s.maps (index_of c) k ne)
              ∙ e in
            run-count cs t k n room next (omega arith) ∙ ap pos (omega arith)
      ]
