-- ===== src/Counters/Syscalls.antt =====
-- benchmarks/countsyscalls/prog.bpf.c: how often each listed system call is made. Identifiers are
-- `long`, here those that are not negative.
use mathlib.Core.Path.{subst}
use honey_potion.Base.{
  ℕ, ◌+◌, ◌<◌, ◌≡◌, refl, ap, ◌∙◌, Bool, true, false, ◌||◌, Bool-cases, some, inl, inr, List, [],
  ◌∷◌, ◌==◌, ==_iff, if◌then◌else◌, ℤ, pos, add_long, s64-eq, ◌+ℤ◌, ◌^◌, sym, arith,
}
use honey_potion.Bpf.{HashMap, nat_key}
use honey_potion.Bpf.Touch.{touch, lookup-touch_other, lookup-touch_present}

-- SYSCALLSNAMES
abbrev pub syscalls_names : List (ℕ × List ℕ)
syscalls_names =
    (62, 101 ∷ 110 ∷ 116 ∷ 101 ∷ 114 ∷ 95 ∷ 107 ∷ 105 ∷ 108 ∷ 108 ∷ [])
    ∷ (83, 101 ∷ 110 ∷ 116 ∷ 101 ∷ 114 ∷ 95 ∷ 109 ∷ 107 ∷ 100 ∷ 105 ∷ 114 ∷ [])
    ∷ (
      318,
      101 ∷ 110 ∷ 116 ∷ 101 ∷ 114 ∷ 95 ∷ 103 ∷ 101 ∷ 116 ∷ 114 ∷ 97 ∷ 110 ∷ 100 ∷ 111 ∷ 109 ∷ [],
    )
    ∷ []

-- The loop that sets `found`.
unfoldable pub is_listed : List (ℕ × List ℕ) → ℕ → Bool
is_listed [] id = false
is_listed ((listed, name) ∷ names) id = listed == id || is_listed names id

-- `*value = *value + 1`
abbrev pub one_more : ℤ → ℤ
one_more value = add_long value (pos 1)

-- The number of calls of `id`.
abbrev pub calls_of : ℕ → List ℕ → ℕ
calls_of id [] = 0
calls_of id (j ∷ ids) = (if j == id then 1 else 0) + calls_of id ids

long_successor : (n : ℕ) → n + 1 < 2 ^ 63 → add_long (pos n) (pos 1) ≡ pos (n + 1)
unfolding ◌+ℤ◌
long_successor n small =
    let exact : pos n +ℤ pos 1 ≡ pos (n + 1) = ground arith in
    rw exact (s64-eq (pos (n + 1)) (ground arith))

module _ (counts : HashMap nat_key ℤ) where
  -- `countSyscalls`: a counter that is there is changed through the pointer and put again, and one
  -- that is not starts from `qtd`.
  unfoldable pub count_syscalls : counts.Map → ℕ → counts.Map
  unfolding is_listed touch
  count_syscalls m id =
      if is_listed syscalls_names id then touch counts m id one_more (one_more (pos 0)) else m

  unfoldable pub run : counts.Map → List ℕ → counts.Map
  unfolding count_syscalls
  run m [] = m
  run m (id ∷ ids) = run (count_syscalls m id) ids

  -- One call of a listed system call whose counter is there, and one of another.
  count_syscalls-same :
      (m : counts.Map) (id n : ℕ)
      → is_listed syscalls_names id ≡ true
      → counts.lookup m id ≡ some (pos n)
      → n + 1 < 2 ^ 63
      → counts.lookup (count_syscalls m id) id ≡ some (pos (n + 1))
  unfolding count_syscalls
  count_syscalls-same m id n listed found small =
      rw (count_syscalls, listed)
        (lookup-touch_present counts m id one_more (one_more (pos 0)) (pos n) found
          ∙ ap some (long_successor n small))

  count_syscalls-other :
      (m : counts.Map) (j id : ℕ)
      → (j == id) ≡ false
      → counts.lookup (count_syscalls m j) id ≡ counts.lookup m id
  unfolding count_syscalls
  count_syscalls-other m j id ne = elim (Bool-cases (is_listed syscalls_names j)) [
    | inl listed ↦
        rw (count_syscalls, listed)
          (lookup-touch_other counts m j one_more (one_more (pos 0)) id ne)
    | inr ignored ↦ rw (count_syscalls, ignored) refl
  ]

  -- Once a listed system call has a counter, every further call of it adds one and no other call
  -- changes it, however full the map is; a call that is not listed never changes the map.
  pub run_counts :
      (ids : List ℕ) (m : counts.Map) (id n : ℕ)
      → is_listed syscalls_names id ≡ true
      → counts.lookup m id ≡ some (pos n)
      → n + calls_of id ids < 2 ^ 63
      → (counts.lookup (run m ids) id ≡ some (pos (n + calls_of id ids)))
        × ((j : ℕ) → is_listed syscalls_names j ≡ false → count_syscalls m j ≡ m)
  unfolding run count_syscalls
  run_counts [] m id n listed found small =
      (found ∙ ap some (ap pos (omega arith)), λ j ignored. rw (count_syscalls, ignored) refl)
  run_counts (j ∷ ids) m id n listed found small = elim (Bool-cases (j == id)) [
    | inl e ↦
        let same : j ≡ id = (==_iff _ _).0 e in
        let here : calls_of id (j ∷ ids) ≡ 1 + calls_of id ids = ground (arith, e) in
        let step : counts.lookup (count_syscalls m j) id ≡ some (pos (n + 1)) =
          subst (λ x. counts.lookup (count_syscalls m x) id ≡ some (pos (n + 1))) (sym same)
            (count_syscalls-same m id n listed found (omega arith)) in
        let rest = run_counts ids (count_syscalls m j) id (n + 1) listed step (omega arith) in
        (rest.0 ∙ ap some (ap pos (omega arith)), λ i ignored. rw (count_syscalls, ignored) refl)
    | inr e ↦
        let here : calls_of id (j ∷ ids) ≡ calls_of id ids = ground (arith, e) in
        let step : counts.lookup (count_syscalls m j) id ≡ some (pos n) =
          count_syscalls-other m j id e ∙ found in
        let rest = run_counts ids (count_syscalls m j) id n listed step (omega arith) in
        (rest.0 ∙ ap some (ap pos (omega arith)), λ i ignored. rw (count_syscalls, ignored) refl)
  ]
