-- ===== src/TrafficView/Entries.antt =====
-- One entry for each connection, and what its readings add up to.
use honey_potion.Base.{
  ℕ, ◌+◌, ◌≤◌, ◌<◌, ◌≡◌, refl, true, false, Option-cases, none, some, inl, inr, List, [], ◌∷◌,
  arith,
}
use honey_potion.NetworkMonitor.{TrafficKey, TrafficStats, beq_key, beq_key_iff}
use honey_potion.TrafficView.{
  TrafficEntry, new_entry, find_traffic, find_or_add_traffic, deltas, refresh,
}

-- No two entries have the same key.
abbrev pub IsDistinct : List TrafficEntry → Type 0
IsDistinct [] = Unit {0}
IsDistinct (e ∷ es) = (find_traffic es e.key ≡ none) × IsDistinct es

find_traffic-key :
    (es : List TrafficEntry) (key : TrafficKey) (e : TrafficEntry)
    → find_traffic es key ≡ some e
    → e.key ≡ key
unfolding find_traffic
find_traffic-key [] key e h = absurd (ground arith)
find_traffic-key (x ∷ es) key e h = ground (arith, beq_key_iff x.key key, find_traffic-key es key e)

-- The entry that `find_or_add_traffic` gives has the key that was asked for and is the one that
-- the list then holds for it; no other key's entry changes, and keys stay distinct.
pub find_or_add-IsDistinct :
    (es : List TrafficEntry) (key : TrafficKey)
    → IsDistinct es
    → let r = find_or_add_traffic es key in
      (r.1.key ≡ key)
      × (find_traffic r.0 key ≡ some r.1)
      × IsDistinct r.0
      × ((other : TrafficKey)
          → beq_key key other ≡ false
          → find_traffic r.0 other ≡ find_traffic es other)
unfolding find_or_add_traffic find_traffic
find_or_add-IsDistinct es key distinct = elim (Option-cases (find_traffic es key)) [
  | inl absent ↦
      let self : beq_key key key ≡ true = (beq_key_iff key key).1 refl in
      rw (absent, find_or_add_traffic)
        (refl, rw (find_traffic, self) refl, (absent, distinct), λ o ne. rw (find_traffic, ne) refl)
  | inr (e, found) ↦
      rw (found, find_or_add_traffic)
        (find_traffic-key es key e found, found, distinct, λ o ne. refl)
]

-- The growth over a sequence of readings, and the entry after them.
abbrev pub grown : TrafficEntry → List TrafficStats → ℕ × ℕ
grown e [] = (0, 0)
grown e (st ∷ sts) =
    let rest = grown (refresh e st) sts in ((deltas e st).0 + rest.0, (deltas e st).1 + rest.1)

abbrev pub last_of : TrafficStats → List TrafficStats → TrafficStats
last_of st [] = st
last_of st (next ∷ sts) = last_of next sts

-- Counters that never fall.
abbrev pub IsRising : TrafficStats → List TrafficStats → Type 0
IsRising st [] = Unit {0}
IsRising st (next ∷ sts) =
    (st.bytes_sent ≤ next.bytes_sent) × (st.bytes_recv ≤ next.bytes_recv) × IsRising next sts

grown-rising :
    (sts : List TrafficStats) (e : TrafficEntry) (st : TrafficStats)
    → IsRising st sts
    → 0 < st.bytes_sent + st.bytes_recv
    → let g = grown (refresh e st) sts in
      let last = last_of st sts in
      (g.0 + st.bytes_sent ≡ last.bytes_sent) × (g.1 + st.bytes_recv ≡ last.bytes_recv)
unfolding deltas refresh
grown-rising [] e st rising some_bytes = (omega arith, omega arith)
grown-rising (next ∷ sts) e st rising some_bytes =
    let rest = grown-rising sts (refresh e st) next rising.2 (omega arith) in ground arith

-- The growth shown for a new connection whose counters never fall, over any number of readings
-- from one that is not zero on, is the last reading less the first: what was transferred before
-- the first reading is not shown as growth.
pub grown-first :
    (sts : List TrafficStats) (key : TrafficKey) (st : TrafficStats)
    → IsRising st sts
    → 0 < st.bytes_sent + st.bytes_recv
    → let g = grown (new_entry key) (st ∷ sts) in
      let last = last_of st sts in
      (g.0 + st.bytes_sent ≡ last.bytes_sent) × (g.1 + st.bytes_recv ≡ last.bytes_recv)
unfolding deltas
grown-first sts key st rising some_bytes =
    let rest = grown-rising sts (new_entry key) st rising some_bytes in (omega arith, omega arith)
