-- ===== src/DiskMonitor.antt =====
-- benchmarks/diskmonitor/prog.bpf.c: bytes, operations and latencies of the read and write calls,
-- for each process and operation and for each process.
pub mod Stats
pub mod Consistent
pub mod Latency
mod Tests
use honey_potion.Base.{
  ℕ, ◌+◌, ◌≤◌, ◌≡◌, ◌↔◌, ℤ, pos, negsuc, Bool, true, ◌&&◌, ◌||◌, Option, none, some, List, [], ◌∷◌,
  ltb, ◌==◌, if◌then◌else◌, sub64, u64, arith,
}
use honey_potion.Bpf.{Key, HashMap, nat_key}
use honey_potion.Bpf.Touch.{touch}

-- OP_READ and OP_WRITE
abbrev pub op_read : ℕ
op_read = 0

abbrev pub op_write : ℕ
op_write = 1

pub record IoKey : Type 0 where
  pub pid : ℕ
  pub operation : ℕ

pub record IoStats : Type 0 where
  pub bytes_read : ℕ
  pub bytes_written : ℕ
  pub ops_read : ℕ
  pub ops_write : ℕ
  pub total_latency_ns : ℕ
  pub max_latency_ns : ℕ
  pub min_latency_ns : ℕ
  pub last_update_ns : ℕ

-- What one completed call reports.
pub record Io : Type 0 where
  pub operation : ℕ
  pub bytes : ℕ
  pub latency_ns : ℕ
  pub now : ℕ

abbrev pub beq_key : IoKey → IoKey → Bool
beq_key a b = a.pid == b.pid && a.operation == b.operation

pub beq_key_iff : (a b : IoKey) → (beq_key a b ≡ true) ↔ (a ≡ b)
beq_key_iff a b = ground arith

abbrev pub io_key : Key IoKey
io_key = record { beq = beq_key; beq_iff = beq_key_iff }

-- The branch of `update_io_stats` for a record that is there.
unfoldable pub bumped : Io → IoStats → IoStats
bumped io stats = record {
  bytes_read =
      if io.operation == op_read then u64 (stats.bytes_read + io.bytes) else stats.bytes_read;
  bytes_written =
      if io.operation == op_read then stats.bytes_written else u64 (stats.bytes_written + io.bytes);
  ops_read = if io.operation == op_read then u64 (stats.ops_read + 1) else stats.ops_read;
  ops_write = if io.operation == op_read then stats.ops_write else u64 (stats.ops_write + 1);
  total_latency_ns = u64 (stats.total_latency_ns + io.latency_ns);
  max_latency_ns =
      if ltb stats.max_latency_ns io.latency_ns then io.latency_ns else stats.max_latency_ns;
  min_latency_ns =
      if stats.min_latency_ns == 0 || ltb io.latency_ns stats.min_latency_ns
      then io.latency_ns
      else stats.min_latency_ns;
  last_update_ns = io.now;
}

-- The branch for a record that is not there.
unfoldable pub fresh : Io → IoStats
fresh io = record {
  bytes_read = if io.operation == op_read then io.bytes else 0;
  bytes_written = if io.operation == op_read then 0 else io.bytes;
  ops_read = if io.operation == op_read then 1 else 0;
  ops_write = if io.operation == op_read then 0 else 1;
  total_latency_ns = io.latency_ns;
  max_latency_ns = io.latency_ns;
  min_latency_ns = io.latency_ns;
  last_update_ns = io.now;
}

-- The six calls that are traced.
pub data Call : Type 0 where
  read write pread64 pwrite64 readv writev : Call

-- The operation that the exit handler of a call passes on.
abbrev pub operation_of : Call → ℕ
operation_of read = op_read
operation_of write = op_write
operation_of pread64 = op_read
operation_of pwrite64 = op_write
operation_of readv = op_read
operation_of writev = op_write

-- One firing of a tracepoint, with the process, what the call returned, and the clock: an exit
-- handler reads it twice, for the latency and for the time of the update.
pub data Event : Type 0 where
  sys_enter : (call : Call) (pid now : ℕ) → Event
  sys_exit : (call : Call) (pid : ℕ) (ret : ℤ) (now updated : ℕ) → Event

-- `ret > 0 ? (__u64)ret : 0`
abbrev pub bytes_of : ℤ → ℕ
bytes_of (pos n) = u64 n
bytes_of (negsuc n) = 0

-- The two maps of records and the map of start times.
pub record Maps (S T P : Type 0) : Type 0 where
  pub io_stats_map : S
  pub io_start_time : T
  pub pid_stats : P

module _ (stats : HashMap io_key IoStats) (times : HashMap nat_key ℕ)
    (pids : HashMap nat_key IoStats) where
  abbrev pub State : Type 0
  State = Maps stats.Map times.Map pids.Map

  -- `update_io_stats`
  unfoldable pub update_io_stats : State → ℕ → Io → State
  unfolding touch bumped fresh
  update_io_stats s pid io = record s {
    io_stats_map =
        touch stats s.io_stats_map (record { pid = pid; operation = io.operation }) (bumped io)
          (fresh io);
    pid_stats = touch pids s.pid_stats pid (bumped io) (fresh io);
  }

  -- `handle_sys_enter`
  unfoldable pub handle_sys_enter : State → ℕ → ℕ → State
  handle_sys_enter s pid now =
      if pid == 0 then s else record s { io_start_time = times.update s.io_start_time pid now }

  -- `handle_sys_exit` for a call whose start is known.
  unfoldable pub finish : State → ℕ → ℕ → ℤ → ℕ → ℕ → ℕ → State
  unfolding update_io_stats
  finish s pid operation ret start now updated =
      let io : Io = record {
        operation = operation;
        bytes = bytes_of ret;
        latency_ns = sub64 now start;
        now = updated;
      } in
      let t = update_io_stats s pid io in
      record t { io_start_time = times.delete t.io_start_time pid }

  unfoldable pub finish_started : Option ℕ → State → ℕ → ℕ → ℤ → ℕ → ℕ → State
  unfolding finish
  finish_started none s pid operation ret now updated = s
  finish_started (some start) s pid operation ret now updated =
      finish s pid operation ret start now updated

  -- `handle_sys_exit`
  unfoldable pub handle_sys_exit : State → ℕ → ℕ → ℤ → ℕ → ℕ → State
  unfolding finish_started
  handle_sys_exit s pid operation ret now updated =
      if pid == 0
      then s
      else finish_started (times.lookup s.io_start_time pid) s pid operation ret now updated

  -- The twelve handlers.
  unfoldable pub handle : State → Event → State
  unfolding handle_sys_enter handle_sys_exit
  handle s (sys_enter call pid now) = handle_sys_enter s pid now
  handle s (sys_exit call pid ret now updated) =
      handle_sys_exit s pid (operation_of call) ret now updated

  unfoldable pub run : State → List Event → State
  unfolding handle
  run s [] = s
  run s (e ∷ es) = run (handle s e) es
