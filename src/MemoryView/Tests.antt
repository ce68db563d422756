-- ===== src/MemoryView/Tests.antt =====
-- A map of three processes, of which the last is not read.
use honey_potion.Base.{
  ℕ, ◌≡◌, refl, ◌&&◌, Option, none, some, is_some, List, [], ◌∷◌, ◌==◌, if◌then◌else◌, arith,
}
use honey_potion.Bpf.{nat_key}
use honey_potion.Monitor.{find}
use honey_potion.Monitor.Reading.{contains}
use honey_potion.MemoryMonitor.{MemStats, new_stats}
use honey_potion.MemoryView.{PidEntry, pid_kind, read_map}
use honey_potion.MemoryView.Reading.{counters_of, read_keys, read_map-counters}

abbrev next : ℕ → Option ℕ
next key =
    if key == 0 then some 7 else if key == 7 then some 4 else if key == 4 then some 9 else none

abbrev lookup : ℕ → Option MemStats
lookup key = if key == 0 then none else some (new_stats key)

read_map-counters_example :
    (state : List PidEntry) × (read_map next lookup 4 [] 0 ≡ some state)
    × ((j : ℕ)
        → counters_of state j ≡ (
            if contains nat_key (read_keys 0 (7 ∷ 4 ∷ 9 ∷ [])) j && is_some (lookup j)
            then lookup j
            else counters_of [] j))
read_map-counters_example =
    read_map-counters lookup next (7 ∷ 4 ∷ 9 ∷ []) 4 [] (refl, (refl, (refl, refl))) (omega arith)

-- Process 9, the last of the map, is not in the list.
last_not_read : Option (List PidEntry)
unfolding read_map
last_not_read = read_map next lookup 4 [] 0

last_not_read_lem :
    elim last_not_read as (λ o. Option PidEntry) [
      | none ↦ none
      | some state ↦ find pid_kind state 9
    ]
    ≡ none
unfolding last_not_read find
last_not_read_lem = refl
