-- ===== src/MemoryMonitor/Tests.antt =====
-- The monitor over a table of four entries: thread 7 maps 4096 bytes and unmaps 1000 of them.
use honey_potion.Base.{◌+◌, ◌*◌, ◌^◌, ◌≡◌, refl, true, List, [], ◌∷◌, u64, arith}
use honey_potion.Bpf.{HashMap, nat_key}
use honey_potion.Bpf.Table.{table}
use honey_potion.MemoryMonitor.{
  MemStats, Context, Event, mmap_enter, munmap_enter, brk_enter, State, run,
}
use honey_potion.MemoryMonitor.Usage.{record_of}
use honey_potion.MemoryMonitor.Balance.{usage_of, mmaps_of, munmaps_of, run_balance}

abbrev stats : HashMap nat_key MemStats
stats = table nat_key 4

abbrev empty : State stats
empty = record { mem_stats_map = []; mem_events = [] }

abbrev context : Context
context = record {
  pid_tgid = 6 * 2 ^ 32 + 7;
  comm = [];
  created = 10;
  updated = 11;
  timestamp = 12;
  reserved = true;
}

abbrev calls : List Event
calls = mmap_enter context 4096 ∷ brk_enter context 64 ∷ munmap_enter context 1000 ∷ []

abbrev later : State stats
later = run stats empty calls

run-calls : usage_of (record_of stats later 7) ≡ 3096
unfolding run
run-calls = refl

run_balance_example :
    (usage_of (record_of stats later 7) + 1000 ≡ 4096)
    × (mmaps_of (record_of stats later 7) ≡ u64 1)
    × (munmaps_of (record_of stats later 7) ≡ u64 1)
run_balance_example =
    run_balance stats calls empty 7 (omega arith) (omega arith) (omega arith) (omega arith)
