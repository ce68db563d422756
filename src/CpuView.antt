-- ===== src/CpuView.antt =====
-- benchmarks/cpumonitor/prog.c: the list of processes, its refresh from the maps of kernel and of
-- user time, and which processes are shown. Milliseconds and percentages are floating point and
-- are left out. The map's order and the names of processes are parameters.
mod Slices
mod Unseen
mod Tests
use honey_potion.Base.{
  ℕ, ◌-◌, Bool, true, false, ◌||◌, Option, none, some, List, [], ◌∷◌, ltb, leb, if◌then◌else◌,
}
use honey_potion.Bpf.{nat_key}
use honey_potion.Monitor.{Kind, visit, read_all, is_nameless}

-- `struct pid_entry`
pub record CpuEntry : Type 0 where
  pub pid : ℕ
  pub name : List ℕ
  pub prev_kernel_ns : ℕ
  pub prev_user_ns : ℕ

abbrev pub cpu_kind : Kind ℕ CpuEntry
cpu_kind = record {
  key = nat_key;
  key_of = λ e. e.pid;
  new = λ pid. record { pid = pid; name = []; prev_kernel_ns = 0; prev_user_ns = 0 };
}

-- The two lookups of a key, which both have to succeed.
unfoldable pub both_times : Option ℕ → Option ℕ → Option (ℕ × ℕ)
both_times none user = none
both_times (some kernel) none = none
both_times (some kernel) (some user) = some (kernel, user)

-- `d_kernel` and `d_user`
unfoldable pub deltas : CpuEntry → ℕ → ℕ → ℕ × ℕ
deltas e kernel user =
    if ltb 0 e.prev_kernel_ns || ltb 0 e.prev_user_ns
    then (
      (if leb e.prev_kernel_ns kernel then kernel - e.prev_kernel_ns else 0),
      (if leb e.prev_user_ns user then user - e.prev_user_ns else 0),
    )
    else (0, 0)

-- What a reading leaves in the entry.
abbrev pub refresh : (ℕ → List ℕ) → ℕ × ℕ → CpuEntry → CpuEntry
refresh comm times e = record e {
  name = if is_nameless e.name then comm e.pid else e.name;
  prev_kernel_ns = times.0;
  prev_user_ns = times.1;
}

-- `next` is the order of the map of kernel times.
unfoldable pub read_map :
    (ℕ → List ℕ)
    → (Option ℕ → Option ℕ)
    → (ℕ → Option ℕ)
    → (ℕ → Option ℕ)
    → ℕ
    → List CpuEntry
    → Option (List CpuEntry)
unfolding read_all visit both_times
read_map comm next kernel user =
    read_all next (visit cpu_kind (λ pid. both_times (kernel pid) (user pid)) (refresh comm))

-- The entries that are shown.
unfoldable pub shown : List CpuEntry → List CpuEntry
shown [] = []
shown (e ∷ es) = if is_nameless e.name then shown es else e ∷ shown es
