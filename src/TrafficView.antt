-- ===== src/TrafficView.antt =====
-- benchmarks/networkmonitor/prog.c: the list of connections, the growth of their counters between
-- two readings, and the position of the view. Drawing and rates are not modelled.
pub mod Entries
pub mod Scroll
mod Tests
use honey_potion.Base.{
  ℕ, ◌+◌, ◌-◌, Bool, true, false, ◌&&◌, ◌||◌, not, Option, none, some, List, [], ◌∷◌, ltb, leb,
  ◌==◌, if◌then◌else◌, ℤ, pos, negsuc, ◌+ℤ◌, ◌-ℤ◌, ltb_ℤ, s32,
}
use honey_potion.NetworkMonitor.{TrafficKey, TrafficStats, beq_key}

-- `struct traffic_entry`, without its strings and rates.
pub record TrafficEntry : Type 0 where
  pub key : TrafficKey
  pub bytes_sent : ℕ
  pub bytes_recv : ℕ
  pub packets_sent : ℕ
  pub packets_recv : ℕ
  pub prev_bytes_sent : ℕ
  pub prev_bytes_recv : ℕ
  pub last_update_ns : ℕ

-- A node that `calloc` made, with its key.
abbrev pub new_entry : TrafficKey → TrafficEntry
new_entry key = record {
  key = key;
  bytes_sent = 0;
  bytes_recv = 0;
  packets_sent = 0;
  packets_recv = 0;
  prev_bytes_sent = 0;
  prev_bytes_recv = 0;
  last_update_ns = 0;
}

unfoldable pub find_traffic : List TrafficEntry → TrafficKey → Option TrafficEntry
find_traffic [] key = none
find_traffic (e ∷ es) key = if beq_key e.key key then some e else find_traffic es key

-- `find_or_add_traffic`: the list and the entry, for memory that is granted.
unfoldable pub find_or_add_traffic :
    List TrafficEntry → TrafficKey → List TrafficEntry × TrafficEntry
unfolding find_traffic
find_or_add_traffic list key = elim (find_traffic list key) [
  | none ↦ (new_entry key ∷ list, new_entry key)
  | some e ↦ (list, e)
]

-- `d_sent` and `d_recv` of a reading.
unfoldable pub deltas : TrafficEntry → TrafficStats → ℕ × ℕ
deltas e stats =
    if ltb 0 e.prev_bytes_sent || ltb 0 e.prev_bytes_recv
    then (
      (if leb e.prev_bytes_sent stats.bytes_sent then stats.bytes_sent - e.prev_bytes_sent else 0),
      (if leb e.prev_bytes_recv stats.bytes_recv then stats.bytes_recv - e.prev_bytes_recv else 0),
    )
    else (0, 0)

-- What a reading leaves in the entry.
unfoldable pub refresh : TrafficEntry → TrafficStats → TrafficEntry
refresh e stats = record e {
  bytes_sent = stats.bytes_sent;
  bytes_recv = stats.bytes_recv;
  packets_sent = stats.packets_sent;
  packets_recv = stats.packets_recv;
  prev_bytes_sent = stats.bytes_sent;
  prev_bytes_recv = stats.bytes_recv;
  last_update_ns = stats.last_update_ns;
}

-- The keys that move the view.
pub data Key : Type 0 where
  key_up key_down key_npage key_ppage other : Key

-- One key, with the rows of the screen and the number of entries of the cached view, if there is
-- one. `int` does not overflow here: the screen and the view are small.
unfoldable pub moved : ℤ → Option ℕ → ℤ → Key → ℤ
moved lines view scroll key_up = if ltb_ℤ (pos 0) scroll then scroll -ℤ pos 1 else scroll
moved lines none scroll key_down = scroll
moved lines (some count) scroll key_down =
    if ltb_ℤ scroll (pos count -ℤ pos 1) then scroll +ℤ pos 1 else scroll
moved lines none scroll key_npage = scroll
moved lines (some count) scroll key_npage = scroll +ℤ (lines -ℤ pos 6)
moved lines none scroll key_ppage = scroll
moved lines (some count) scroll key_ppage = scroll -ℤ (lines -ℤ pos 6)
moved lines view scroll other = scroll

-- The two tests after each key.
unfoldable pub clamped : Option ℕ → ℤ → ℤ
clamped none scroll = if ltb_ℤ scroll (pos 0) then pos 0 else scroll
clamped (some count) scroll =
    let low = if ltb_ℤ scroll (pos 0) then pos 0 else scroll in
    if ltb_ℤ (pos count -ℤ pos 1) low then pos count -ℤ pos 1 else low

unfoldable pub pressed : ℤ → Option ℕ → ℤ → List Key → ℤ
unfolding moved clamped
pressed lines view scroll [] = scroll
pressed lines view scroll (k ∷ ks) =
    pressed lines view (clamped view (moved lines view scroll k)) ks

-- `view_count`, and the position after the view is built again.
abbrev pub view_count : ℕ → ℕ
view_count count = if ltb 50 count then 50 else count

unfoldable pub rebuilt : ℕ → ℤ → ℤ
rebuilt count scroll =
    let s =
      if ltb_ℤ (pos 0) scroll && ltb 0 count && ltb_ℤ (pos count -ℤ pos 1) scroll
      then pos count -ℤ pos 1
      else scroll in
    if ltb_ℤ s (pos 0) then pos 0 else s
