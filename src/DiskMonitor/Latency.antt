-- ===== src/DiskMonitor/Latency.antt =====
-- The exit of a call is matched with its entry.
use honey_potion.Base.{ℕ, ℤ, ◌≡◌, ◌≢◌, Option, List, [], ◌∷◌}
use honey_potion.Bpf.{HashMap, nat_key}
use honey_potion.DiskMonitor.{
  Io, IoStats, io_key, State, Event, sys_enter, sys_exit, Call, operation_of, bytes_of,
}

abbrev pub pid_of : Event → ℕ
pid_of (sys_enter call pid now) = pid
pid_of (sys_exit call pid ret now updated) = pid

-- No event of the list is one of process `p`.
abbrev pub AllOther : ℕ → List Event → Type 0
AllOther p [] = Unit {0}
AllOther p (e ∷ es) = (pid_of e ≢ p) × AllOther p es

abbrev pub reported : Call → ℤ → ℕ → ℕ → Io
reported call ret latency updated = record {
  operation = operation_of call;
  bytes = bytes_of ret;
  latency_ns = latency;
  now = updated;
}

module _ (stats : HashMap io_key IoStats) (times : HashMap nat_key ℕ)
    (pids : HashMap nat_key IoStats) where
  abbrev started : State stats times pids → ℕ → Option ℕ
  started s p = times.lookup s.io_start_time p

  abbrev totals : State stats times pids → ℕ → Option IoStats
  totals s p = pids.lookup s.pid_stats p

  -- What another process's event leaves alone.
  record Same (s s' : State stats times pids) (p : ℕ) : Type 0 where
    start : started s' p ≡ started s p
    total : totals s' p ≡ totals s p
