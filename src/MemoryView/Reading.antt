-- ===== src/MemoryView/Reading.antt =====
-- Which keys of the map are read.
use honey_potion.Base.{
  ℕ, zero, suc, ◌<◌, ◌≡◌, refl, ◌&&◌, is_some, Option, none, some, List, [], ◌∷◌, length,
  if◌then◌else◌, arith,
}
use honey_potion.Bpf.{nat_key}
use honey_potion.Monitor.{visit, find}
use honey_potion.Monitor.Reading.{visits, contains, shown_of, visits-shown}
use honey_potion.MemoryMonitor.{MemStats}
use honey_potion.MemoryView.{PidEntry, pid_kind, with_counters, read_map}

-- `next` is the map's order: the keys, one after the other, that follow `key`.
abbrev pub Follows : (ℕ → Option ℕ) → ℕ → List ℕ → Type 0
Follows next key [] = next key ≡ none
Follows next key (k ∷ ks) = (next key ≡ some k) × Follows next k ks

-- All keys but the last, with `key` before them.
abbrev pub read_keys : ℕ → List ℕ → List ℕ
read_keys key [] = []
read_keys key (k ∷ ks) = key ∷ read_keys k ks

abbrev pub counters_of : List PidEntry → ℕ → Option MemStats
counters_of state pid = shown_of (λ e. e.counters) (find pid_kind state pid)

module _ (lookup : ℕ → Option MemStats) where
  read_map-visits :
      (next : ℕ → Option ℕ) (ks : List ℕ) (fuel : ℕ) (state : List PidEntry) (key : ℕ)
      → Follows next key ks
      → length ks < fuel
      → read_map next lookup fuel state key
        ≡ some (visits (visit pid_kind lookup with_counters) state (read_keys key ks))
  unfolding read_map
  read_map-visits next ks zero state key f h = absurd (omega arith)
  read_map-visits next [] (suc fuel) state key f h = rw (read_map, f) refl
  read_map-visits next (k ∷ ks) (suc fuel) state key (f, fs) h =
      rw (read_map, f)
        (read_map-visits next ks fuel (visit pid_kind lookup with_counters state key) k fs
          (omega arith))

  -- If `next` gives the keys of the map in its order, the first of them after 0, then enough fuel
  -- reads the map: the processes whose counters are those of the map are 0 and every key but the
  -- last, where the map has them. The counters of all others, those of the last key among them
  -- unless it is one of these, are what they were.
  pub read_map-counters :
      (next : ℕ → Option ℕ) (keys : List ℕ) (fuel : ℕ) (state : List PidEntry)
      → Follows next 0 keys
      → length keys < fuel
      → (state' : List PidEntry) × (read_map next lookup fuel state 0 ≡ some state')
        × ((j : ℕ)
            → counters_of state' j ≡ (
                if contains nat_key (read_keys 0 keys) j && is_some (lookup j)
                then lookup j
                else counters_of state j))
  read_map-counters next keys fuel state order enough = (
    visits (visit pid_kind lookup with_counters) state (read_keys 0 keys),
    read_map-visits next keys fuel state 0 order enough,
    visits-shown pid_kind (λ k. refl) lookup with_counters (λ v e. refl) (λ e. e.counters)
        (λ v e. refl) (read_keys 0 keys) state,
  )
