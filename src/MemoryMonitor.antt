-- ===== src/MemoryMonitor.antt =====
-- benchmarks/memorymonitor/prog.bpf.c: the memory that each thread maps and unmaps.
pub mod Usage
pub mod Balance
pub mod Log
mod Tests
use honey_potion.Base.{
  ℕ, ◌+◌, ◌-◌, ◌/◌, ◌%◌, ◌^◌, Bool, Option, none, some, List, [], ◌∷◌, ◌++◌, ltb, leb, ◌==◌,
  if◌then◌else◌, u64,
}
use honey_potion.Bpf.{HashMap, nat_key}

pub record MemEvent : Type 0 where
  pub timestamp : ℕ
  pub pid : ℕ
  pub tgid : ℕ
  pub size : ℕ
  pub address : ℕ
  pub event_type : ℕ
  pub comm : List ℕ

pub record MemStats : Type 0 where
  pub total_allocated : ℕ
  pub total_freed : ℕ
  pub current_usage : ℕ
  pub peak_usage : ℕ
  pub alloc_count : ℕ
  pub free_count : ℕ
  pub mmap_count : ℕ
  pub munmap_count : ℕ
  pub last_update : ℕ

-- `new_stats`, with the time at which it is made.
abbrev pub new_stats : ℕ → MemStats
new_stats now = record {
  total_allocated = 0;
  total_freed = 0;
  current_usage = 0;
  peak_usage = 0;
  alloc_count = 0;
  free_count = 0;
  mmap_count = 0;
  munmap_count = 0;
  last_update = now;
}

-- `current_usage += size`, and the peak with it.
unfoldable pub grow : ℕ → MemStats → MemStats
grow size st =
    let usage = u64 (st.current_usage + size) in
    record st {
      current_usage = usage;
      peak_usage = if ltb st.peak_usage usage then usage else st.peak_usage;
    }

-- `if (current_usage >= size) current_usage -= size`
unfoldable pub shrink : ℕ → MemStats → MemStats
shrink size st =
    if leb size st.current_usage then record st { current_usage = st.current_usage - size } else st

-- The four cases of the switch in `update_mem_stats`.
unfoldable pub account_alloc : ℕ → MemStats → MemStats
unfolding grow
account_alloc size st =
    let grown = grow size st in
    record grown {
      total_allocated = u64 (st.total_allocated + size);
      alloc_count = u64 (st.alloc_count + 1);
    }

unfoldable pub account_free : ℕ → MemStats → MemStats
unfolding shrink
account_free size st =
    let shrunk = shrink size st in
    record shrunk {
      total_freed = u64 (st.total_freed + size);
      free_count = u64 (st.free_count + 1);
    }

unfoldable pub account_mmap : ℕ → MemStats → MemStats
unfolding grow
account_mmap size st =
    let grown = grow size st in record grown { mmap_count = u64 (st.mmap_count + 1) }

unfoldable pub account_munmap : ℕ → MemStats → MemStats
unfolding shrink
account_munmap size st =
    let shrunk = shrink size st in record shrunk { munmap_count = u64 (st.munmap_count + 1) }

-- What `update_mem_stats` does through its pointer.
unfoldable pub account : ℕ → ℕ → ℕ → MemStats → MemStats
unfolding account_alloc account_free account_mmap account_munmap
account size event_type now stats =
    let st = record stats { last_update = now } in
    if event_type == 0
    then account_alloc size st
    else if event_type == 1
    then account_free size st
    else if event_type == 2
    then account_mmap size st
    else if event_type == 3
    then account_munmap size st
    else st

-- `get_current_pid` and `get_current_tgid`
abbrev pub current_pid : ℕ → ℕ
current_pid pid_tgid = pid_tgid % 2 ^ 32

abbrev pub current_tgid : ℕ → ℕ
current_tgid pid_tgid = pid_tgid / 2 ^ 32

-- What a handler reads from the kernel: the thread, its name, the clock when a record is made,
-- when it is changed and when an event is filled in, and whether the ring buffer has room.
pub record Context : Type 0 where
  pub pid_tgid : ℕ
  pub comm : List ℕ
  pub created : ℕ
  pub updated : ℕ
  pub timestamp : ℕ
  pub reserved : Bool

-- One firing of a tracepoint, with the argument that its handler reads.
pub data Event : Type 0 where
  mmap_enter : (ctx : Context) (length : ℕ) → Event
  munmap_enter : (ctx : Context) (length : ℕ) → Event
  brk_enter : (ctx : Context) (addr : ℕ) → Event

-- `event` of a handler.
unfoldable pub event_of : Context → ℕ → ℕ → ℕ → MemEvent
event_of ctx size address event_type = record {
  timestamp = ctx.timestamp;
  pid = current_pid ctx.pid_tgid;
  tgid = current_tgid ctx.pid_tgid;
  size = size;
  address = address;
  event_type = event_type;
  comm = ctx.comm;
}

-- What is submitted, oldest first, if there was room.
unfoldable pub submit : List MemEvent → Context → ℕ → ℕ → ℕ → List MemEvent
unfolding event_of
submit ring ctx size address event_type =
    if ctx.reserved then ring ++ event_of ctx size address event_type ∷ [] else ring

pub record Maps (S : Type 0) : Type 0 where
  pub mem_stats_map : S
  pub mem_events : List MemEvent

module _ (stats : HashMap nat_key MemStats) where
  abbrev pub State : Type 0
  State = Maps stats.Map

  -- The second lookup of `update_mem_stats`: the entry may not have been added.
  unfoldable pub account_found : Option MemStats → stats.Map → ℕ → (MemStats → MemStats) → stats.Map
  account_found none m pid change = m
  account_found (some st) m pid change = stats.store m pid (change st)

  unfoldable pub account_at :
      Option MemStats → stats.Map → ℕ → MemStats → (MemStats → MemStats) → stats.Map
  unfolding account_found
  account_at none m pid fresh change =
      let inserted = stats.insert m pid fresh in
      account_found (stats.lookup inserted pid) inserted pid change
  account_at (some st) m pid fresh change = stats.store m pid (change st)

  -- `update_mem_stats`
  unfoldable pub update_mem_stats : stats.Map → Context → ℕ → ℕ → stats.Map
  unfolding account_at account
  update_mem_stats m ctx size event_type =
      let pid = current_pid ctx.pid_tgid in
      account_at (stats.lookup m pid) m pid (new_stats ctx.created)
        (account size event_type ctx.updated)

  -- `trace_mmap_enter`
  unfoldable pub trace_mmap_enter : State → Context → ℕ → State
  unfolding update_mem_stats submit
  trace_mmap_enter s ctx length =
      if leb 1024 length
      then record {
        mem_stats_map = update_mem_stats s.mem_stats_map ctx length 2;
        mem_events = submit s.mem_events ctx length 0 2;
      }
      else s

  -- `trace_munmap_enter`
  unfoldable pub trace_munmap_enter : State → Context → ℕ → State
  unfolding update_mem_stats submit
  trace_munmap_enter s ctx length = record {
    mem_stats_map = update_mem_stats s.mem_stats_map ctx length 3;
    mem_events = submit s.mem_events ctx length 0 3;
  }

  -- `trace_brk_enter`
  unfoldable pub trace_brk_enter : State → Context → ℕ → State
  unfolding submit
  trace_brk_enter s ctx addr = record s { mem_events = submit s.mem_events ctx 0 addr 4 }

  -- The three handlers.
  unfoldable pub handle : State → Event → State
  unfolding trace_mmap_enter trace_munmap_enter trace_brk_enter
  handle s (mmap_enter ctx length) = trace_mmap_enter s ctx length
  handle s (munmap_enter ctx length) = trace_munmap_enter s ctx length
  handle s (brk_enter ctx addr) = trace_brk_enter s ctx addr

  unfoldable pub run : State → List Event → State
  unfolding handle
  run s [] = s
  run s (e ∷ es) = run (handle s e) es
