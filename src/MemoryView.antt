-- ===== src/MemoryView.antt =====
-- benchmarks/memorymonitor/prog.c: the list of processes, its refresh from the map and from
-- /proc/<pid>/status, the order of the view and its position. The map's order, the C library's
-- `strtoul` and `qsort`, and what /proc holds are parameters.
pub mod Reading
pub mod Status
pub mod Ranking
mod Tests
use honey_potion.Base.{
  ℕ, zero, suc, ◌+◌, ◌-◌, Bool, true, false, ◌&&◌, ◌||◌, not, Option, none, some, List, [], ◌∷◌,
  length, ltb, leb, ◌==◌, if◌then◌else◌, ℤ, pos, negsuc, ◌+ℤ◌, ◌-ℤ◌, ltb_ℤ,
}
use honey_potion.Bpf.{nat_key}
use honey_potion.Monitor.{Kind, visit}
use honey_potion.MemoryMonitor.{MemStats, new_stats}

-- `struct pid_entry`: its nine counters are one field.
pub record PidEntry : Type 0 where
  pub pid : ℕ
  pub name : List ℕ
  pub counters : MemStats
  pub rss_kb : ℕ
  pub virtual_kb : ℕ
  pub peak_rss_kb : ℕ

-- A node that `calloc` made, with its process.
abbrev pub new_entry : ℕ → PidEntry
new_entry pid = record {
  pid = pid;
  name = [];
  counters = new_stats 0;
  rss_kb = 0;
  virtual_kb = 0;
  peak_rss_kb = 0;
}

abbrev pub pid_kind : Kind ℕ PidEntry
pid_kind = record { key = nat_key; key_of = λ e. e.pid; new = new_entry }

-- What the map has for a process.
abbrev pub with_counters : MemStats → PidEntry → PidEntry
with_counters stats e = record e { counters = stats }

-- `while (bpf_map_get_next_key(fd, &key, &next_key) == 0) { ...; key = next_key; }`
unfoldable pub read_map :
    (ℕ → Option ℕ) → (ℕ → Option MemStats) → ℕ → List PidEntry → ℕ → Option (List PidEntry)
unfolding visit
read_map next lookup zero state key = none
read_map next lookup (suc fuel) state key = elim (next key) [
  | none ↦ some state
  | some next_key ↦
      read_map next lookup fuel (visit pid_kind lookup with_counters state key) next_key
]

-- What follows `prefix` in `line`, if it begins with it.
unfoldable pub after_prefix : List ℕ → List ℕ → Option (List ℕ)
after_prefix [] line = some line
after_prefix (c ∷ prefix) [] = none
after_prefix (c ∷ prefix) (d ∷ line) = if c == d then after_prefix prefix line else none

-- `while (*ptr && (*ptr == ' ' || *ptr == '\t')) ptr++;`
unfoldable pub skip_blanks : List ℕ → List ℕ
skip_blanks [] = []
skip_blanks (c ∷ line) = if c == 32 || c == 9 then skip_blanks line else c ∷ line

-- "VmRSS:", "VmSize:" and "VmHWM:"
abbrev pub vm_rss : List ℕ
vm_rss = 86 ∷ 109 ∷ 82 ∷ 83 ∷ 83 ∷ 58 ∷ []

abbrev pub vm_size : List ℕ
vm_size = 86 ∷ 109 ∷ 83 ∷ 105 ∷ 122 ∷ 101 ∷ 58 ∷ []

abbrev pub vm_hwm : List ℕ
vm_hwm = 86 ∷ 109 ∷ 72 ∷ 87 ∷ 77 ∷ 58 ∷ []

pub record Usage : Type 0 where
  pub rss_kb : ℕ
  pub virtual_kb : ℕ
  pub peak_rss_kb : ℕ

module _ (strtoul : List ℕ → ℕ) where
  -- A number is taken where the text has one more character.
  unfoldable pub number_in : List ℕ → ℕ → ℕ
  number_in [] old = old
  number_in (c ∷ text) old = strtoul (c ∷ text)

  -- One line without its newline.
  unfoldable pub read_line : Usage → List ℕ → Usage
  unfolding after_prefix skip_blanks number_in
  read_line u line = elim (after_prefix vm_rss line) [
    | some text ↦ record u { rss_kb = number_in (skip_blanks text) u.rss_kb }
    | none ↦ elim (after_prefix vm_size line) [
      | some text ↦ record u { virtual_kb = number_in (skip_blanks text) u.virtual_kb }
      | none ↦ elim (after_prefix vm_hwm line) [
        | some text ↦ record u { peak_rss_kb = number_in (skip_blanks text) u.peak_rss_kb }
        | none ↦ u
      ]
    ]
  ]

  unfoldable pub read_lines : Usage → List (List ℕ) → Usage
  unfolding read_line
  read_lines u [] = u
  read_lines u (line ∷ lines) = read_lines (read_line u line) lines

  -- `get_real_memory_usage` of the lines of the file, or of none where it cannot be opened.
  unfoldable pub get_real_memory_usage : Option (List (List ℕ)) → Usage
  unfolding read_lines
  get_real_memory_usage none = record { rss_kb = 0; virtual_kb = 0; peak_rss_kb = 0 }
  get_real_memory_usage (some lines) =
      read_lines (record { rss_kb = 0; virtual_kb = 0; peak_rss_kb = 0 }) lines

-- `compare_pid_entries_desc_memory`
unfoldable pub compare_entries : PidEntry → PidEntry → ℤ
compare_entries a b =
    if ltb a.rss_kb b.rss_kb
    then pos 1
    else if ltb b.rss_kb a.rss_kb
    then negsuc 0
    else if ltb a.pid b.pid
    then negsuc 0
    else if ltb b.pid a.pid
    then pos 1
    else pos 0

-- The entries that are shown: with a name, and with memory.
abbrev pub is_named : List ℕ → Bool
is_named [] = false
is_named (c ∷ name) = not (c == 45)

unfoldable pub shown : List PidEntry → List PidEntry
shown [] = []
shown (e ∷ es) = if is_named e.name && ltb 0 e.rss_kb then e ∷ shown es else shown es

abbrev pub first {ℓ} : {A : Type ℓ} → ℕ → List A → List A
first zero xs = []
first (suc n) [] = []
first (suc n) (x ∷ xs) = x ∷ first n xs

-- The view: at most 100 of the sorted entries.
unfoldable pub view : (List PidEntry → List PidEntry) → List PidEntry → List PidEntry
unfolding shown
view qsort state = first 100 (qsort (shown state))

-- The keys that move the view.
pub data Key : Type 0 where
  key_up key_down key_ppage key_npage other : Key

-- One key, with `view_count`.
unfoldable pub moved : ℕ → ℤ → Key → ℤ
moved count scroll key_up = if ltb_ℤ (pos 0) scroll then scroll -ℤ pos 1 else scroll
moved count scroll key_down =
    if ltb 0 count && ltb_ℤ scroll (pos count -ℤ pos 1) then scroll +ℤ pos 1 else scroll
moved count scroll key_ppage = if ltb_ℤ (pos 10) scroll then scroll -ℤ pos 10 else scroll
moved count scroll key_npage =
    if ltb 0 count && ltb_ℤ scroll (pos count -ℤ pos 10) then scroll +ℤ pos 10 else scroll
moved count scroll other = scroll

-- The tests after the key.
unfoldable pub clamped : ℕ → ℤ → ℤ
clamped count scroll =
    let low =
      if ltb_ℤ (pos 0) scroll && ltb 0 count && ltb_ℤ (pos count -ℤ pos 1) scroll
      then pos count -ℤ pos 1
      else scroll in
    if ltb_ℤ low (pos 0) then pos 0 else low

-- The keys of several rounds, with the number of rows at each.
unfoldable pub pressed : ℤ → List (ℕ × Key) → ℤ
unfolding moved clamped
pressed scroll [] = scroll
pressed scroll ((count, key) ∷ keys) = pressed (clamped count (moved count scroll key)) keys
