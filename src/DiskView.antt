-- ===== src/DiskView.antt =====
-- benchmarks/diskmonitor/prog.c: the list of entries, one for each process and operation, its
-- refresh from the map, and which entries are shown. Rates are floating point and are left out;
-- whether an entry's rate is positive is a parameter.
mod Growth
mod Tests
use honey_potion.Base.{
  ℕ, ◌+◌, ◌-◌, Bool, true, false, ◌&&◌, ◌||◌, not, Option, none, some, List, [], ◌∷◌, ltb, leb,
  ◌==◌, if◌then◌else◌, u64,
}
use honey_potion.Monitor.{Kind, visit, read_all, is_nameless}
use honey_potion.DiskMonitor.{IoKey, IoStats, io_key}

-- `struct io_entry`: its eight counters are one field.
pub record IoEntry : Type 0 where
  pub key : IoKey
  pub name : List ℕ
  pub stats : IoStats
  pub prev_bytes_read : ℕ
  pub prev_bytes_written : ℕ

abbrev pub no_stats : IoStats
no_stats = record {
  bytes_read = 0;
  bytes_written = 0;
  ops_read = 0;
  ops_write = 0;
  total_latency_ns = 0;
  max_latency_ns = 0;
  min_latency_ns = 0;
  last_update_ns = 0;
}

-- `get_comm_by_pid` gives the name of a process; process 0 has the name "-".
abbrev pub name_of : (ℕ → List ℕ) → ℕ → List ℕ
name_of comm pid = if ltb 0 pid then comm pid else 45 ∷ []

abbrev pub io_kind : (ℕ → List ℕ) → Kind IoKey IoEntry
io_kind comm = record {
  key = io_key;
  key_of = λ e. e.key;
  new = λ k. record {
    key = k;
    name = name_of comm k.pid;
    stats = no_stats;
    prev_bytes_read = 0;
    prev_bytes_written = 0;
  };
}

-- `d_read` and `d_write`
unfoldable pub deltas : IoEntry → IoStats → ℕ × ℕ
deltas e stats =
    if ltb 0 e.prev_bytes_read || ltb 0 e.prev_bytes_written
    then (
      (if leb e.prev_bytes_read stats.bytes_read then stats.bytes_read - e.prev_bytes_read else 0),
      (if leb e.prev_bytes_written stats.bytes_written
          then stats.bytes_written - e.prev_bytes_written
          else 0),
    )
    else (0, 0)

-- What a reading leaves in the entry.
abbrev pub refresh : (ℕ → List ℕ) → IoStats → IoEntry → IoEntry
refresh comm stats e = record e {
  name = if is_nameless e.name && ltb 0 e.key.pid then comm e.key.pid else e.name;
  stats = stats;
  prev_bytes_read = stats.bytes_read;
  prev_bytes_written = stats.bytes_written;
}

unfoldable pub read_map :
    (ℕ → List ℕ)
    → (Option IoKey → Option IoKey)
    → (IoKey → Option IoStats)
    → ℕ
    → List IoEntry
    → Option (List IoEntry)
unfolding read_all visit
read_map comm next lookup = read_all next (visit (io_kind comm) lookup (refresh comm))

-- `strncmp(name, prefix, length of prefix) == 0`
abbrev pub begins : List ℕ → List ℕ → Bool
begins [] name = true
begins (c ∷ prefix) [] = false
begins (c ∷ prefix) (d ∷ name) = c == d && begins prefix name

-- "irq/", "kworker/", "ksoftirqd/", "rcu_", "migration/" and "watchdog/"
abbrev pub kernel_names : List (List ℕ)
kernel_names =
    (105 ∷ 114 ∷ 113 ∷ 47 ∷ [])
    ∷ (107 ∷ 119 ∷ 111 ∷ 114 ∷ 107 ∷ 101 ∷ 114 ∷ 47 ∷ [])
    ∷ (107 ∷ 115 ∷ 111 ∷ 102 ∷ 116 ∷ 105 ∷ 114 ∷ 113 ∷ 100 ∷ 47 ∷ [])
    ∷ (114 ∷ 99 ∷ 117 ∷ 95 ∷ [])
    ∷ (109 ∷ 105 ∷ 103 ∷ 114 ∷ 97 ∷ 116 ∷ 105 ∷ 111 ∷ 110 ∷ 47 ∷ [])
    ∷ (119 ∷ 97 ∷ 116 ∷ 99 ∷ 104 ∷ 100 ∷ 111 ∷ 103 ∷ 47 ∷ [])
    ∷ []

abbrev pub begins_any : List (List ℕ) → List ℕ → Bool
begins_any [] name = false
begins_any (p ∷ ps) name = begins p name || begins_any ps name

unfoldable pub is_kernel_thread : ℕ → List ℕ → Bool
is_kernel_thread pid name =
    if is_nameless name then false else begins_any kernel_names name || ltb pid 10

-- The entries that are shown.
unfoldable pub shown : (IoEntry → Bool) → List IoEntry → List IoEntry
unfolding is_kernel_thread
shown has_rate [] = []
shown has_rate (e ∷ es) =
    if (ltb 0 e.stats.bytes_read || ltb 0 e.stats.bytes_written || has_rate e)
      && not (is_kernel_thread e.key.pid e.name)
    then e ∷ shown has_rate es
    else shown has_rate es
