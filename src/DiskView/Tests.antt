-- ===== src/DiskView/Tests.antt =====
-- A map of two entries, which grew since the last pass.
use honey_potion.Base.{
  ℕ, ◌≡◌, refl, true, false, Option, none, some, List, [], ◌∷◌, ◌==◌, if◌then◌else◌, arith,
}
use honey_potion.Monitor.{find}
use honey_potion.DiskMonitor.{IoKey, IoStats}
use honey_potion.DiskView.{IoEntry, io_kind, deltas, read_map, is_kernel_thread, no_stats, shown}
use honey_potion.DiskView.Growth.{growth, read_map-growth}

abbrev k1 : IoKey
k1 = record { pid = 1; operation = 0 }

abbrev k2 : IoKey
k2 = record { pid = 20; operation = 1 }

abbrev comm : ℕ → List ℕ
comm pid = 97 ∷ []

abbrev next : Option IoKey → Option IoKey
next none = some k1
next (some k) = if k.pid == 1 then some k2 else none

abbrev stats : IoStats
stats = record no_stats { bytes_read = 5 }

abbrev lookup : IoKey → Option IoStats
lookup k = some stats

read_map-growth_example :
    (state' : List IoEntry) × (e : IoEntry) × (read_map comm next lookup 2 [] ≡ some state')
    × (find (io_kind comm) state' k2 ≡ some e)
    × ((later : IoStats) → deltas e later ≡ growth stats later)
read_map-growth_example =
    read_map-growth comm lookup next (k1 ∷ k2 ∷ []) 2 [] (refl, (refl, refl)) (omega arith) k2 stats
      refl refl

abbrev new_io : IoKey → IoEntry
new_io = (io_kind comm).new

grown :
    deltas (record (new_io k2) { prev_bytes_read = 5 }) (record stats { bytes_read = 9 }) ≡ (4, 0)
unfolding deltas
grown = refl

-- "rcu_gp" is a thread of the kernel, and so is every process below 10 that has a name.
rcu : is_kernel_thread 20 (114 ∷ 99 ∷ 117 ∷ 95 ∷ 103 ∷ 112 ∷ []) ≡ true
unfolding is_kernel_thread
rcu = refl

init : is_kernel_thread 1 (105 ∷ []) ≡ true
unfolding is_kernel_thread
init = refl

nameless : is_kernel_thread 1 (45 ∷ []) ≡ false
unfolding is_kernel_thread
nameless = refl

abbrev busy : IoEntry
busy = record (new_io k2) { stats = stats }

only_one : shown (λ e. false) (busy ∷ record busy { key = k1 } ∷ []) ≡ busy ∷ []
unfolding shown
only_one = refl
