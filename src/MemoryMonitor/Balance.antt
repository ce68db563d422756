-- ===== src/MemoryMonitor/Balance.antt =====
-- What the usage of a thread amounts to, and its peak.
use honey_potion.Base.{
  ℕ, ◌+◌, ◌-◌, ◌^◌, ◌≤◌, ◌<◌, ◌≡◌, refl, Bool, false, ◌&&◌, Option, none, some, inl, inr, List, [],
  ◌∷◌, length, leb, ◌==◌, if◌then◌else◌, u64, arith,
}
use honey_potion.Bpf.{HashMap, nat_key}
use honey_potion.MemoryMonitor.{
  MemStats, grow, shrink, account, account_mmap, account_munmap, Context, current_pid, Event,
  mmap_enter, munmap_enter, brk_enter, State, run, handle,
}
use honey_potion.MemoryMonitor.Usage.{
  remember, history, HasRoom, record_of, run-history, handle_cases,
}

abbrev pub usage_of : Option MemStats → ℕ
usage_of none = 0
usage_of (some st) = st.current_usage

abbrev pub peak_of : Option MemStats → ℕ
peak_of none = 0
peak_of (some st) = st.peak_usage

abbrev pub mmaps_of : Option MemStats → ℕ
mmaps_of none = 0
mmaps_of (some st) = st.mmap_count

abbrev pub munmaps_of : Option MemStats → ℕ
munmaps_of none = 0
munmaps_of (some st) = st.munmap_count

-- An event as a mapping, and as an unmapping, of thread `j`.
abbrev pub is_mmap : ℕ → Event → Bool
is_mmap j (mmap_enter ctx n) = current_pid ctx.pid_tgid == j && leb 1024 n
is_mmap j (munmap_enter ctx n) = false
is_mmap j (brk_enter ctx addr) = false

abbrev pub is_munmap : ℕ → Event → Bool
is_munmap j (mmap_enter ctx n) = false
is_munmap j (munmap_enter ctx n) = current_pid ctx.pid_tgid == j
is_munmap j (brk_enter ctx addr) = false

abbrev pub length_of : Event → ℕ
length_of (mmap_enter ctx n) = n
length_of (munmap_enter ctx n) = n
length_of (brk_enter ctx addr) = 0

abbrev pub sum_of : (Event → Bool) → List Event → ℕ
sum_of test [] = 0
sum_of test (e ∷ es) = (if test e then length_of e else 0) + sum_of test es

abbrev pub number_of : (Event → Bool) → List Event → ℕ
number_of test [] = 0
number_of test (e ∷ es) = (if test e then 1 else 0) + number_of test es

-- No unmapping exceeds the usage `u` that the thread has then, and no mapping overflows it.
abbrev pub IsBalanced : ℕ → ℕ → List Event → Type 0
IsBalanced j u [] = Unit {0}
IsBalanced j u (e ∷ es) =
    ((if is_munmap j e then length_of e else 0) ≤ u)
    × (u + (if is_mmap j e then length_of e else 0) < 2 ^ 64)
    × IsBalanced j
        (u + (if is_mmap j e then length_of e else 0) - (if is_munmap j e then length_of e else 0))
        es

remember-balance :
    (j : ℕ) (o : Option MemStats) (e : Event)
    → (if is_munmap j e then length_of e else 0) ≤ usage_of o
    → usage_of o + (if is_mmap j e then length_of e else 0) < 2 ^ 64
    → (usage_of (remember j o e)
        ≡ usage_of o
          + (if is_mmap j e then length_of e else 0)
          - (if is_munmap j e then length_of e else 0))
unfolding account account_mmap account_munmap grow shrink
remember-balance j o (mmap_enter ctx n) fits small = ground arith
remember-balance j o (munmap_enter ctx n) fits small = ground arith
remember-balance j o (brk_enter ctx addr) fits small = omega arith

remember-counts :
    (j : ℕ) (o : Option MemStats) (e : Event)
    → mmaps_of o < 2 ^ 64
    → munmaps_of o < 2 ^ 64
    → (mmaps_of (remember j o e) ≡ u64 (mmaps_of o + (if is_mmap j e then 1 else 0)))
      × (munmaps_of (remember j o e) ≡ u64 (munmaps_of o + (if is_munmap j e then 1 else 0)))
unfolding account account_mmap account_munmap grow shrink
remember-counts j o (mmap_enter ctx n) a b = ground arith
remember-counts j o (munmap_enter ctx n) a b = ground arith
remember-counts j o (brk_enter ctx addr) a b = (omega arith, omega arith)

history-balance :
    (j : ℕ) (o : Option MemStats) (es : List Event)
    → IsBalanced j (usage_of o) es
    → usage_of (history j o es) + sum_of (is_munmap j) es ≡ usage_of o + sum_of (is_mmap j) es
history-balance j o [] b = refl
history-balance j o (e ∷ es) b =
    let step = remember-balance j o e b.0 b.1 in
    let rest = history-balance j (remember j o e) es (rw step b.2) in omega arith

history-counts :
    (j : ℕ) (o : Option MemStats) (es : List Event)
    → mmaps_of o < 2 ^ 64
    → munmaps_of o < 2 ^ 64
    → (mmaps_of (history j o es) ≡ u64 (mmaps_of o + number_of (is_mmap j) es))
      × (munmaps_of (history j o es) ≡ u64 (munmaps_of o + number_of (is_munmap j) es))
history-counts j o [] a b = (omega arith, omega arith)
history-counts j o (e ∷ es) a b =
    let step = remember-counts j o e a b in
    let rest = history-counts j (remember j o e) es (omega arith) (omega arith) in
    (omega arith, omega arith)

-- The peak is at least the usage.
abbrev pub IsBelowPeak : Option MemStats → Type 0
IsBelowPeak o = usage_of o ≤ peak_of o

remember-peak :
    (j : ℕ) (o : Option MemStats) (e : Event)
    → IsBelowPeak o
    → IsBelowPeak (remember j o e) × (peak_of o ≤ peak_of (remember j o e))
unfolding account account_mmap account_munmap grow shrink
remember-peak j o (mmap_enter ctx n) below = ground arith
remember-peak j o (munmap_enter ctx n) below = ground arith
remember-peak j o (brk_enter ctx addr) below = (below, omega arith)

module _ (stats : HashMap nat_key MemStats) where
  handle-peak :
      (s : State stats) (e : Event) (j : ℕ)
      → IsBelowPeak (record_of stats s j)
      → let s' = handle stats s e in
        IsBelowPeak (record_of stats s' j)
        × (peak_of (record_of stats s j) ≤ peak_of (record_of stats s' j))
  handle-peak s e j below = elim (handle_cases stats s e j) [
    | inl taken ↦ rw taken (remember-peak j (record_of stats s j) e below)
    | inr same ↦ rw same (below, omega arith)
  ]

  -- Whatever the calls, and even when the map is full: the usage of each thread stays at or below
  -- its peak, which never falls.
  pub run_peak :
      (es : List Event) (s : State stats) (j : ℕ)
      → IsBelowPeak (record_of stats s j)
      → let s' = run stats s es in
        IsBelowPeak (record_of stats s' j)
        × (peak_of (record_of stats s j) ≤ peak_of (record_of stats s' j))
  unfolding run
  run_peak [] s j below = (below, omega arith)
  run_peak (e ∷ es) s j below =
      let step = handle-peak s e j below in
      let rest = run_peak es (handle stats s e) j step.0 in (rest.0, omega arith)

  -- If the map has room, no unmapping of a thread exceeds its usage and no mapping overflows it,
  -- then its usage grows by the lengths of its mappings of at least 1024 bytes and falls by those
  -- of all its unmappings, and its two counts grow by the numbers of these calls.
  pub run_balance :
      (es : List Event) (s : State stats) (j : ℕ)
      → HasRoom stats (length es) s
      → IsBalanced j (usage_of (record_of stats s j)) es
      → mmaps_of (record_of stats s j) < 2 ^ 64
      → munmaps_of (record_of stats s j) < 2 ^ 64
      → let before = record_of stats s j in
        let after = record_of stats (run stats s es) j in
        (usage_of after + sum_of (is_munmap j) es ≡ usage_of before + sum_of (is_mmap j) es)
        × (mmaps_of after ≡ u64 (mmaps_of before + number_of (is_mmap j) es))
        × (munmaps_of after ≡ u64 (munmaps_of before + number_of (is_munmap j) es))
  run_balance es s j room balanced a b =
      let counts = history-counts j (record_of stats s j) es a b in
      rw (run-history stats es s j room)
        (history-balance j (record_of stats s j) es balanced, counts.0, counts.1)

  -- A thread that maps fewer than 1024 bytes and unmaps them has that much less usage recorded
  -- than before, if it had as much and the map has room.
  small_mapping_lost :
      (s : State stats) (c d : Context) (n j : ℕ)
      → HasRoom stats 2 s
      → current_pid c.pid_tgid ≡ j
      → current_pid d.pid_tgid ≡ j
      → n < 1024
      → n ≤ usage_of (record_of stats s j)
      → usage_of (record_of stats (run stats s (mmap_enter c n ∷ munmap_enter d n ∷ [])) j)
        ≡ usage_of (record_of stats s j) - n
  unfolding account account_munmap shrink
  small_mapping_lost s c d n j room is_c is_d small enough =
      rw (run-history stats (mmap_enter c n ∷ munmap_enter d n ∷ []) s j room) (ground arith)
