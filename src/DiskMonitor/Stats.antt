-- ===== src/DiskMonitor/Stats.antt =====
-- One record of statistics: what it holds after a sequence of completed calls.
use honey_potion.Base.{ℕ, ◌⊎◌, inl, ◌+◌, ◌≤◌, ◌<◌, ◌^◌, ◌≡◌, refl, List, [], ◌∷◌, u64, arith}
use honey_potion.DiskMonitor.{Io, IoStats, bumped, fresh}

-- The record after the calls of a list, from the one before them.
abbrev pub tally : IoStats → List Io → IoStats
tally st [] = st
tally st (io ∷ ios) = tally (bumped io st) ios

abbrev pub sum_latency : List Io → ℕ
sum_latency [] = 0
sum_latency (io ∷ ios) = io.latency_ns + sum_latency ios

-- Every latency of the list lies between the two.
abbrev pub AllBetween : ℕ → ℕ → List Io → Type 0
AllBetween lo hi [] = Unit {0}
AllBetween lo hi (io ∷ ios) = (lo ≤ io.latency_ns) × (io.latency_ns ≤ hi) × AllBetween lo hi ios

abbrev pub AllPositive : List Io → Type 0
AllPositive [] = Unit {0}
AllPositive (io ∷ ios) = (0 < io.latency_ns) × AllPositive ios

-- One of the latencies of the list.
abbrev pub Attains : ℕ → List Io → Type 0
Attains v [] = ⊥
Attains v (io ∷ ios) = (v ≡ io.latency_ns) ⊎ Attains v ios

bumped_latencies :
    (io : Io) (st : IoStats)
    → 0 < st.min_latency_ns
    → 0 < io.latency_ns
    → let st' = bumped io st in
      (0 < st'.min_latency_ns)
      × (st'.min_latency_ns ≤ io.latency_ns)
      × (st'.min_latency_ns ≤ st.min_latency_ns)
      × (io.latency_ns ≤ st'.max_latency_ns)
      × (st.max_latency_ns ≤ st'.max_latency_ns)
      × (st'.total_latency_ns ≡ u64 (st.total_latency_ns + io.latency_ns))
      × ((st'.min_latency_ns ≡ st.min_latency_ns) ⊎ (st'.min_latency_ns ≡ io.latency_ns))
      × ((st'.max_latency_ns ≡ st.max_latency_ns) ⊎ (st'.max_latency_ns ≡ io.latency_ns))
unfolding bumped
bumped_latencies io st h l = ground arith

tally_from :
    (st : IoStats) (ios : List Io)
    → 0 < st.min_latency_ns
    → st.total_latency_ns < 2 ^ 64
    → AllPositive ios
    → let st' = tally st ios in
      AllBetween st'.min_latency_ns st'.max_latency_ns ios
      × (st'.min_latency_ns ≤ st.min_latency_ns)
      × (st.max_latency_ns ≤ st'.max_latency_ns)
      × (st'.total_latency_ns ≡ u64 (st.total_latency_ns + sum_latency ios))
      × ((st'.min_latency_ns ≡ st.min_latency_ns) ⊎ Attains st'.min_latency_ns ios)
      × ((st'.max_latency_ns ≡ st.max_latency_ns) ⊎ Attains st'.max_latency_ns ios)
tally_from st [] h t a = (tt, omega arith, omega arith, omega arith, inl refl, inl refl)
tally_from st (io ∷ ios) h t a =
    let step = bumped_latencies io st h a.0 in
    let rest = tally_from (bumped io st) ios (omega arith) (omega arith) a.1 in
    (
      (omega arith, omega arith, rest.0),
      omega arith,
      omega arith,
      omega arith,
      ground (arith, step.6, rest.4),
      ground (arith, step.7, rest.5),
    )

-- The record that the first of some calls inserts and the others change: if all latencies are
-- positive, its least and greatest latency are latencies of the calls and enclose all of them,
-- and its total is the sum of the latencies modulo 2^64.
pub fresh-tally :
    (io : Io) (ios : List Io)
    → io.latency_ns < 2 ^ 64
    → AllPositive (io ∷ ios)
    → let st = tally (fresh io) ios in
      AllBetween st.min_latency_ns st.max_latency_ns (io ∷ ios)
      × Attains st.min_latency_ns (io ∷ ios)
      × Attains st.max_latency_ns (io ∷ ios)
      × (st.total_latency_ns ≡ u64 (sum_latency (io ∷ ios)))
unfolding fresh
fresh-tally io ios h a =
    let rest = tally_from (fresh io) ios a.0 h a.1 in
    ((rest.1, rest.2, rest.0), rest.4, rest.5, rest.3)
