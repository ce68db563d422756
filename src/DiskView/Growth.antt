-- ===== src/DiskView/Growth.antt =====
-- A pass over the map, and the growth that the next pass finds.
use honey_potion.Base.{
  ℕ, ◌-◌, ◌≤◌, ◌≡◌, refl, ap, ◌∙◌, true, ◌&&◌, ◌||◌, is_some, Option, none, some, List, length, ltb,
  if◌then◌else◌,
}
use honey_potion.Monitor.{visit, find}
use honey_potion.Monitor.Reading.{
  Follows, visits, contains, shown_of, from_shown, monus, read_all-visits, visits-shown,
}
use honey_potion.DiskMonitor.{IoKey, IoStats, io_key}
use honey_potion.DiskView.{IoEntry, io_kind, refresh, deltas, read_map}

-- The counters, with the bytes that the next growth starts from.
abbrev previous : IoEntry → IoStats
previous e = record e.stats { bytes_read = e.prev_bytes_read; bytes_written = e.prev_bytes_written }

abbrev pub stats_of : (ℕ → List ℕ) → List IoEntry → IoKey → Option IoStats
stats_of comm state k = shown_of (λ e. e.stats) (find (io_kind comm) state k)

abbrev previous_of : (ℕ → List ℕ) → List IoEntry → IoKey → Option IoStats
previous_of comm state k = shown_of previous (find (io_kind comm) state k)

-- The growth between two readings.
abbrev pub growth : IoStats → IoStats → ℕ × ℕ
growth old new =
    if ltb 0 old.bytes_read || ltb 0 old.bytes_written
    then (new.bytes_read - old.bytes_read, new.bytes_written - old.bytes_written)
    else (0, 0)

deltas-growth : (e : IoEntry) (new : IoStats) → deltas e new ≡ growth (previous e) new
unfolding deltas
deltas-growth e new =
    rw (monus e.prev_bytes_read new.bytes_read, monus e.prev_bytes_written new.bytes_written) refl

module _ (comm : ℕ → List ℕ) (lookup : IoKey → Option IoStats) (next : Option IoKey → Option IoKey)
    (keys : List IoKey) (fuel : ℕ) (state : List IoEntry) (order : Follows next none keys)
    (enough : length keys ≤ fuel) where
  after : List IoEntry
  after = visits (visit (io_kind comm) lookup (refresh comm)) state keys

  read_map-after : read_map comm next lookup fuel state ≡ some after
  unfolding read_map after
  read_map-after = read_all-visits next _ keys fuel state order enough

  -- If `next` gives the keys of the map in its order and there is fuel for each, then the pass
  -- ends, and the counters of every key that is in the order and in the map are those of the map;
  -- those of all other keys are what they were.
  pub read_map-stats :
      (state' : List IoEntry) × (read_map comm next lookup fuel state ≡ some state')
      × ((j : IoKey)
          → stats_of comm state' j ≡ (
              if contains io_key keys j && is_some (lookup j)
              then lookup j
              else stats_of comm state j))
  unfolding after
  read_map-stats = (
    after,
    read_map-after,
    visits-shown (io_kind comm) (λ k. refl) lookup (refresh comm) (λ v e. refl) (λ e. e.stats)
        (λ v e. refl) keys state,
  )

  -- If `next` gives the keys of the map in its order and there is fuel for each, then the pass
  -- leaves an entry for every key of the order that the map has. Against later counters the entry
  -- shows how far each has grown since the pass, and 0 where it has fallen; it shows no growth
  -- where nothing was read and nothing written before the pass.
  pub read_map-growth :
      (k : IoKey) (stats : IoStats)
      → contains io_key keys k ≡ true
      → lookup k ≡ some stats
      → (state' : List IoEntry) × (e : IoEntry) × (read_map comm next lookup fuel state
          ≡ some state')
        × (find (io_kind comm) state' k ≡ some e)
        × ((later : IoStats) → deltas e later ≡ growth stats later)
  unfolding after
  read_map-growth k stats listed has =
      let all =
        visits-shown (io_kind comm) (λ k. refl) lookup (refresh comm) (λ v e. refl) previous
          (λ v e. refl) keys state k in
      let at : previous_of comm after k ≡ some stats = rw (all, listed, has) refl in
      let (e, found, is) = from_shown previous _ stats at in
      (
        after,
        e,
        read_map-after,
        found,
        λ later. deltas-growth e later ∙ ap (λ s. growth s later) is,
      )
