-- ===== src/MemoryMonitor/Usage.antt =====
-- The record of a thread: its history, its peak, and what the usage amounts to.
use honey_potion.Base.{
  ℕ, suc, ◌+◌, ◌≤◌, ◌≡◌, refl, ap, ◌∙◌, ◌&&◌, ◌||◌, Option, none, some, inr, ◌⊎◌, is_some, List, [],
  ◌∷◌, length, ltb, leb, ◌==◌, if◌then◌else◌, arith,
}
use honey_potion.Bpf.{HashMap, nat_key}
use honey_potion.MemoryMonitor.{
  MemStats, new_stats, account, Context, current_pid, Event, mmap_enter, munmap_enter, brk_enter,
  State, account_found, account_at, update_mem_stats, trace_mmap_enter, trace_munmap_enter,
  trace_brk_enter, handle, run,
}

abbrev pub stats_or_new : Option MemStats → ℕ → MemStats
stats_or_new none now = new_stats now
stats_or_new (some st) now = st

-- The record of thread `j` after one event, from the one before it.
abbrev pub remember : ℕ → Option MemStats → Event → Option MemStats
remember j o (mmap_enter ctx n) =
    if current_pid ctx.pid_tgid == j && leb 1024 n
    then some (account n 2 ctx.updated (stats_or_new o ctx.created))
    else o
remember j o (munmap_enter ctx n) =
    if current_pid ctx.pid_tgid == j
    then some (account n 3 ctx.updated (stats_or_new o ctx.created))
    else o
remember j o (brk_enter ctx addr) = o

abbrev pub history : ℕ → Option MemStats → List Event → Option MemStats
history j o [] = o
history j o (e ∷ es) = history j (remember j o e) es

module _ (stats : HashMap nat_key MemStats) where
  lookup-update :
      (m : stats.Map) (ctx : Context) (n event_type j : ℕ)
      → let pid = current_pid ctx.pid_tgid in
        stats.lookup (update_mem_stats stats m ctx n event_type) j ≡ (
          if pid == j && (is_some (stats.lookup m pid) || ltb (stats.size m) stats.max_entries)
          then some (account n event_type ctx.updated (stats_or_new (stats.lookup m j) ctx.created))
          else stats.lookup m j)
  unfolding update_mem_stats account_at account_found
  lookup-update m ctx n event_type j =
      let pid = current_pid ctx.pid_tgid in
      let inserted = stats.insert m pid (new_stats ctx.created) in
      ground (
        arith,
        stats.lookup-insert m pid (new_stats ctx.created) pid,
        stats.lookup-insert m pid (new_stats ctx.created) j,
        stats.lookup-store inserted pid (account n event_type ctx.updated (new_stats ctx.created))
            j,
        stats.lookup-store m pid
            (account n event_type ctx.updated (stats_or_new (stats.lookup m pid) ctx.created)) j,
      )

  size-account_found :
      (o : Option MemStats) (m : stats.Map) (pid : ℕ) (change : MemStats → MemStats)
      → stats.size (account_found stats o m pid change) ≡ stats.size m
  unfolding account_found
  size-account_found none m pid change = refl
  size-account_found (some st) m pid change = stats.size-store m pid (change st)

  size-account_at :
      (o : Option MemStats) (m : stats.Map) (pid : ℕ) (fresh : MemStats)
      (change : MemStats → MemStats)
      → stats.size (account_at stats o m pid fresh change) ≤ stats.size m + 1
  unfolding account_at
  size-account_at none m pid fresh change =
      let inserted = stats.insert m pid fresh in
      omega (
        arith,
        size-account_found (stats.lookup inserted pid) inserted pid change,
        stats.size-insert m pid fresh,
      )
  size-account_at (some st) m pid fresh change = omega (arith, stats.size-store m pid (change st))

  -- Room for `n` more threads.
  abbrev pub HasRoom : ℕ → State stats → Type 0
  HasRoom n s = stats.size s.mem_stats_map + n ≤ stats.max_entries

  handle-HasRoom :
      (s : State stats) (e : Event) (n : ℕ) → HasRoom (suc n) s → HasRoom n (handle stats s e)
  unfolding handle trace_mmap_enter trace_munmap_enter trace_brk_enter update_mem_stats
  handle-HasRoom s (mmap_enter ctx length) n room =
      let pid = current_pid ctx.pid_tgid in
      ground (
        arith,
        size-account_at (stats.lookup s.mem_stats_map pid) s.mem_stats_map pid
            (new_stats ctx.created) (account length 2 ctx.updated),
      )
  handle-HasRoom s (munmap_enter ctx length) n room =
      let pid = current_pid ctx.pid_tgid in
      omega (
        arith,
        size-account_at (stats.lookup s.mem_stats_map pid) s.mem_stats_map pid
            (new_stats ctx.created) (account length 3 ctx.updated),
      )
  handle-HasRoom s (brk_enter ctx addr) n room = omega arith

  abbrev pub record_of : State stats → ℕ → Option MemStats
  record_of s j = stats.lookup s.mem_stats_map j

  handle-remember :
      (s : State stats) (e : Event) (n j : ℕ)
      → HasRoom (suc n) s
      → record_of (handle stats s e) j ≡ remember j (record_of s j) e
  unfolding handle trace_mmap_enter trace_munmap_enter trace_brk_enter
  handle-remember s (mmap_enter ctx length) n j room =
      ground (arith, lookup-update s.mem_stats_map ctx length 2 j)
  handle-remember s (munmap_enter ctx length) n j room =
      ground (arith, lookup-update s.mem_stats_map ctx length 3 j)
  handle-remember s (brk_enter ctx addr) n j room = refl

  -- After any sequence of calls for which the map has room, the record of each thread is what its
  -- own calls make of the one before, one call at a time.
  pub run-history :
      (es : List Event) (s : State stats) (j : ℕ)
      → HasRoom (length es) s
      → record_of (run stats s es) j ≡ history j (record_of s j) es
  unfolding run
  run-history [] s j room = refl
  run-history (e ∷ es) s j room =
      run-history es (handle stats s e) j (handle-HasRoom s e (length es) room)
      ∙ ap (λ o. history j o es) (handle-remember s e (length es) j room)

  -- Even with no room: an event counts or leaves the record as it is.
  pub handle_cases :
      (s : State stats) (e : Event) (j : ℕ)
      → (record_of (handle stats s e) j ≡ remember j (record_of s j) e)
        ⊎ (record_of (handle stats s e) j ≡ record_of s j)
  unfolding handle trace_mmap_enter trace_munmap_enter trace_brk_enter
  handle_cases s (mmap_enter ctx length) j =
      ground (arith, lookup-update s.mem_stats_map ctx length 2 j)
  handle_cases s (munmap_enter ctx length) j =
      ground (arith, lookup-update s.mem_stats_map ctx length 3 j)
  handle_cases s (brk_enter ctx addr) j = inr refl
