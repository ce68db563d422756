-- ===== src/CpuView/Slices.antt =====
-- The kernel's half and the user's half together: what a pass, and the growth since, say of the
-- slices that processes ran.
use honey_potion.Base.{
  ℕ, ◌+◌, ◌-◌, ◌^◌, ◌<◌, ◌≤◌, ◌≡◌, refl, ap, ◌∙◌, true, false, ◌&&◌, ◌++◌, is_some, Option, none,
  some, List, [], ◌∷◌, length, if◌then◌else◌, arith,
}
use honey_potion.Bpf.{HashMap, nat_key}
use honey_potion.Bpf.Credit.{count_of}
use honey_potion.Monitor.{visit, find}
use honey_potion.Monitor.Reading.{
  Follows, visits, contains, shown_of, from_shown, read_all-visits, visits-shown,
}
use honey_potion.CpuMonitor.{Maps, Event, sched_switch, run, HasRoom}
use honey_potion.CpuMonitor.Slices.{Slice, Slice-le, process_times}
use honey_potion.CpuView.{CpuEntry, cpu_kind, both_times, deltas, refresh, read_map}

-- The two times that the next growth starts from.
abbrev pub times_of : CpuEntry → ℕ × ℕ
times_of e = (e.prev_kernel_ns, e.prev_user_ns)

module _ (comm : ℕ → List ℕ) (next : Option ℕ → Option ℕ) (keys : List ℕ) (fuel : ℕ)
    (state : List CpuEntry) (order : Follows next none keys) (enough : length keys ≤ fuel) where
  -- One pass: the processes that have both times show them, and all others what they did.
  pub read_map-times :
      (kernel user : ℕ → Option ℕ)
      → (state' : List CpuEntry) × (read_map comm next kernel user fuel state ≡ some state')
        × ((p : ℕ)
            → shown_of times_of (find cpu_kind state' p) ≡ (
                if contains nat_key keys p && is_some (both_times (kernel p) (user p))
                then both_times (kernel p) (user p)
                else shown_of times_of (find cpu_kind state p)))
  unfolding read_map
  read_map-times kernel user =
      let lookup : ℕ → Option (ℕ × ℕ) = λ pid. both_times (kernel pid) (user pid) in
      (
        visits (visit cpu_kind lookup (refresh comm)) state keys,
        read_all-visits next _ keys fuel state order enough,
        visits-shown cpu_kind (λ k. refl) lookup (refresh comm) (λ v e. refl) times_of (λ v e. refl)
            keys state,
      )

  read_map-entry :
      (kernel user : ℕ → Option ℕ) (p kernel_ns user_ns : ℕ)
      → contains nat_key keys p ≡ true
      → kernel p ≡ some kernel_ns
      → user p ≡ some user_ns
      → (state' : List CpuEntry) × (e : CpuEntry) × (read_map comm next kernel user fuel state
          ≡ some state')
        × (find cpu_kind state' p ≡ some e)
        × (times_of e ≡ (kernel_ns, user_ns))
  unfolding both_times
  read_map-entry kernel user p kernel_ns user_ns listed hk hu =
      let (state', returns, shows) = read_map-times kernel user in
      let (e, found, is) =
        from_shown times_of _ (kernel_ns, user_ns) (shows p ∙ rw (listed, hk, hu) refl) in
      (state', e, returns, found, is)

  deltas-grown :
      (e : CpuEntry) (kernel_ns user_ns kernel' user' length_ns k : ℕ)
      → times_of e ≡ (kernel_ns, user_ns)
      → 0 < kernel_ns + user_ns
      → kernel' ≡ kernel_ns + k
      → user' + k ≡ user_ns + length_ns
      → k ≤ length_ns
      → deltas e kernel' user' ≡ (k, length_ns - k)
  unfolding deltas
  deltas-grown e kernel_ns user_ns kernel' user' length_ns k is some_time hk hu le =
      ground (arith, ap (λ t. t.0) is, ap (λ t. t.1) is)

  module _ (bpf : HashMap nat_key ℕ) where
    open bpf use {lookup}

    -- The pass reads the two maps, of which `next` is the order of the first, with fuel for every
    -- key. A process `p` that has an entry in both, not both 0, is in its slice since `t0`, leaves
    -- the processor at `hi` and until then spends `k` nanoseconds in completed system calls, among
    -- any events of other processes. If the maps have room for an entry per event, no call of `p`
    -- was open, and the totals stay below 2^64, then the pass leaves an entry for `p`, and against
    -- the maps after the slice it shows that the kernel time grew by `k` and the user time by the
    -- rest of the slice.
    pub slice-deltas :
        (s : Maps bpf.Map) (p q t0 hi k kernel_ns user_ns : ℕ) (es : List Event)
        → contains nat_key keys p ≡ true
        → lookup s.kernel_time p ≡ some kernel_ns
        → lookup s.user_time p ≡ some user_ns
        → 0 < kernel_ns + user_ns
        → HasRoom bpf (length (es ++ sched_switch p q hi ∷ [])) s
        → lookup s.start_time p ≡ some t0
        → lookup s.syscall_start p ≡ none
        → lookup s.run_kernel_time p ≡ none
        → Slice p hi false t0 k es
        → hi < 2 ^ 64
        → kernel_ns + user_ns + (hi - t0) < 2 ^ 64
        → let s' = run bpf s (es ++ sched_switch p q hi ∷ []) in
          (state' : List CpuEntry) × (e : CpuEntry) × (read_map comm next
              (lookup s.kernel_time)
              (lookup s.user_time)
              fuel
              state
            ≡ some state')
          × (find cpu_kind state' p ≡ some e)
          × (deltas e (count_of (lookup s'.kernel_time p)) (count_of (lookup s'.user_time p))
              ≡ (k, hi - t0 - k))
    slice-deltas s p q t0 hi k kernel_ns user_ns es listed hk hu some_time room e1 e2 e3 sl hh
          total =
        let (state', e, returns, found, is) =
          read_map-entry (lookup s.kernel_time) (lookup s.user_time) p kernel_ns user_ns listed hk
            hu in
        let (kernel', user') =
          process_times bpf s p q t0 hi k es room e1 e2 e3 sl hh (rw (hk, hu) total) in
        (
          state',
          e,
          returns,
          found,
          deltas-grown e kernel_ns user_ns _ _ (hi - t0) k is some_time
              (kernel' ∙ ap (λ c. count_of c + k) hk) (user' ∙ ap (λ c. count_of c + (hi - t0)) hu)
              (omega (arith, Slice-le sl)),
        )
