-- ===== src/DiskMonitor/Tests.antt =====
-- The monitor over tables of eight entries: process 7 reads 512 bytes in 40 ns while process 8
-- fails to write.
use honey_potion.Base.{ℕ, pos, negsuc, ◌≡◌, refl, some, List, [], ◌∷◌, ◌++◌, arith}
use honey_potion.Bpf.{HashMap, nat_key}
use honey_potion.Bpf.Table.{table}
use honey_potion.Bpf.Touch.{touch}
use honey_potion.DiskMonitor.{
  Io, IoStats, io_key, State, Event, sys_enter, sys_exit, write, readv, run,
}
use honey_potion.DiskMonitor.Consistent.{IsConsistent, HasRoom, run-IsConsistent}

abbrev stats : HashMap io_key IoStats
stats = table io_key 8

abbrev times : HashMap nat_key ℕ
times = table nat_key 8

abbrev pids : HashMap nat_key IoStats
pids = table nat_key 8

abbrev empty : State stats times pids
empty = record { io_stats_map = []; io_start_time = []; pid_stats = [] }

abbrev others : List Event
others = sys_enter write 8 110 ∷ sys_exit write 8 (negsuc 0) 120 121 ∷ []

abbrev trace : List Event
trace = sys_enter readv 7 100 ∷ others ++ sys_exit readv 7 (pos 512) 140 141 ∷ []

abbrev read_512 : IoStats
read_512 = record {
  bytes_read = 512;
  bytes_written = 0;
  ops_read = 1;
  ops_write = 0;
  total_latency_ns = 40;
  max_latency_ns = 40;
  min_latency_ns = 40;
  last_update_ns = 141;
}

run-trace : pids.lookup (run stats times pids empty trace).pid_stats 7 ≡ some read_512
unfolding run touch
run-trace = refl

abbrev io : ℕ → Io
io latency = record { operation = 0; bytes = 1; latency_ns = latency; now = 0 }

empty-IsConsistent : IsConsistent stats times pids empty
empty-IsConsistent p = omega arith

empty-HasRoom : HasRoom stats times pids 4 empty
empty-HasRoom = omega arith

run-IsConsistent_example : IsConsistent stats times pids (run stats times pids empty trace)
run-IsConsistent_example =
    run-IsConsistent stats times pids trace empty empty-HasRoom empty-IsConsistent
