-- ===== src/DiskMonitor/Consistent.antt =====
-- The records of a process and of its two operations agree.
use honey_potion.Base.{
  ℤ, ℕ, suc, ◌+◌, ◌≤◌, ◌<◌, ◌^◌, ◌≡◌, refl, ◌⊎◌, inl, inr, Option, none, some, List, [], ◌∷◌, ltb,
  ◌==◌, ◌&&◌, if◌then◌else◌, u64, sub64, arith, length, true, false, Bool-cases,
}
use honey_potion.Bpf.{HashMap, nat_key}
use honey_potion.Bpf.Touch.{changed, size-touch, lookup-touch}
use honey_potion.DiskMonitor.{
  Io, IoStats, io_key, bumped, fresh, op_read, op_write, State, Event, sys_enter, sys_exit, Call,
  read, write, pread64, pwrite64, readv, writev, operation_of, update_io_stats, handle_sys_enter,
  handle_sys_exit, finish, finish_started, handle, run, bytes_of,
}

-- A record that is absent counts as zeros.
abbrev pub stats_of : Option IoStats → IoStats
stats_of none = record {
  bytes_read = 0;
  bytes_written = 0;
  ops_read = 0;
  ops_write = 0;
  total_latency_ns = 0;
  max_latency_ns = 0;
  min_latency_ns = 0;
  last_update_ns = 0;
}
stats_of (some st) = st

-- `t` is the record of a process, `r` and `w` those of its reads and its writes.
pub record Agree (r w t : IoStats) : Type 0 where
  pub read_bytes : t.bytes_read ≡ r.bytes_read
  pub written_bytes : t.bytes_written ≡ w.bytes_written
  pub read_ops : t.ops_read ≡ r.ops_read
  pub write_ops : t.ops_write ≡ w.ops_write
  pub total : t.total_latency_ns ≡ u64 (r.total_latency_ns + w.total_latency_ns)
  pub greatest :
      t.max_latency_ns
      ≡ (if ltb r.max_latency_ns w.max_latency_ns then w.max_latency_ns else r.max_latency_ns)

module _ (io : Io) (small : io.bytes < 2 ^ 64) (short : io.latency_ns < 2 ^ 64) where
  abbrev next : Option IoStats → IoStats
  next o = changed o (bumped io) (fresh io)

  next-read-Agree :
      (r w t : Option IoStats)
      → io.operation ≡ op_read
      → Agree (stats_of r) (stats_of w) (stats_of t)
      → Agree (next r) (stats_of w) (next t)
  unfolding bumped fresh
  next-read-Agree r w t e a = ground arith

  next-write-Agree :
      (r w t : Option IoStats)
      → io.operation ≡ op_write
      → Agree (stats_of r) (stats_of w) (stats_of t)
      → Agree (stats_of r) (next w) (next t)
  unfolding bumped fresh
  next-write-Agree r w t e a = ground arith

bytes_of-lt : (ret : ℤ) → bytes_of ret < 2 ^ 64
bytes_of-lt ret = ground arith

module _ (stats : HashMap io_key IoStats) (times : HashMap nat_key ℕ)
    (pids : HashMap nat_key IoStats) where
  abbrev pub reads : State stats times pids → ℕ → Option IoStats
  reads s p = stats.lookup s.io_stats_map (record { pid = p; operation = op_read })

  abbrev pub writes : State stats times pids → ℕ → Option IoStats
  writes s p = stats.lookup s.io_stats_map (record { pid = p; operation = op_write })

  abbrev pub totals : State stats times pids → ℕ → Option IoStats
  totals s p = pids.lookup s.pid_stats p

  abbrev pub IsConsistent : State stats times pids → Type 0
  IsConsistent s =
      (p : ℕ) → Agree (stats_of (reads s p)) (stats_of (writes s p)) (stats_of (totals s p))

  -- Room for `n` more entries in the two maps of records.
  pub record HasRoom (n : ℕ) (s : State stats times pids) : Type 0 where
    pub stats_room : stats.size s.io_stats_map + n ≤ stats.max_entries
    pub pids_room : pids.size s.pid_stats + n ≤ pids.max_entries

  module _ (s : State stats times pids) (pid n : ℕ) (io : Io) (room : HasRoom (suc n) s)
      (p : ℕ) where
    abbrev s' : State stats times pids
    s' = update_io_stats stats times pids s pid io

    reads-update : reads s' p ≡ (
        if pid == p && io.operation == op_read
        then some (changed (reads s p) (bumped io) (fresh io))
        else reads s p)
    unfolding update_io_stats
    reads-update = ground (
      arith,
      lookup-touch stats s.io_stats_map (record { pid = pid; operation = io.operation }) (bumped io)
          (fresh io) (record { pid = p; operation = op_read }),
    )

    writes-update : writes s' p ≡ (
        if pid == p && io.operation == op_write
        then some (changed (writes s p) (bumped io) (fresh io))
        else writes s p)
    unfolding update_io_stats
    writes-update = ground (
      arith,
      lookup-touch stats s.io_stats_map (record { pid = pid; operation = io.operation }) (bumped io)
          (fresh io) (record { pid = p; operation = op_write }),
    )

    totals-update :
        totals s' p
        ≡ (if pid == p then some (changed (totals s p) (bumped io) (fresh io)) else totals s p)
    unfolding update_io_stats
    totals-update = ground (arith, lookup-touch pids s.pid_stats pid (bumped io) (fresh io) p)

    update-Agree :
        io.bytes < 2 ^ 64
        → io.latency_ns < 2 ^ 64
        → (io.operation ≡ op_read) ⊎ (io.operation ≡ op_write)
        → Agree (stats_of (reads s p)) (stats_of (writes s p)) (stats_of (totals s p))
        → Agree (stats_of (reads s' p)) (stats_of (writes s' p)) (stats_of (totals s' p))
    update-Agree small short op a = elim (Bool-cases (pid == p)) [
      | inl same ↦ elim op [
        | inl e ↦
            let is_read : (io.operation == op_read) ≡ true = ground arith in
            let no_write : (io.operation == op_write) ≡ false = ground arith in
            rw (reads-update, writes-update, totals-update, same, is_read, no_write)
              (next-read-Agree io small short (reads s p) (writes s p) (totals s p) e a)
        | inr e ↦
            let no_read : (io.operation == op_read) ≡ false = ground arith in
            let is_write : (io.operation == op_write) ≡ true = ground arith in
            rw (reads-update, writes-update, totals-update, same, no_read, is_write)
              (next-write-Agree io small short (reads s p) (writes s p) (totals s p) e a)
      ]
      | inr other ↦ rw (reads-update, writes-update, totals-update, other) a
    ]

  update-HasRoom :
      (s : State stats times pids) (pid n : ℕ) (io : Io)
      → HasRoom (suc n) s
      → HasRoom n (update_io_stats stats times pids s pid io)
  unfolding update_io_stats
  update-HasRoom s pid n io room = omega (
    arith,
    size-touch stats s.io_stats_map (record { pid = pid; operation = io.operation }) (bumped io)
        (fresh io),
    size-touch pids s.pid_stats pid (bumped io) (fresh io),
  )

  finish-IsConsistent :
      (s : State stats times pids) (pid operation : ℕ) (ret : ℤ) (start now updated n : ℕ)
      → (operation ≡ op_read) ⊎ (operation ≡ op_write)
      → HasRoom (suc n) s
      → IsConsistent s
      → let s' = finish stats times pids s pid operation ret start now updated in
        IsConsistent s' × HasRoom n s'
  unfolding finish
  finish-IsConsistent s pid operation ret start now updated n op room c =
      let io : Io = record {
        operation = operation;
        bytes = bytes_of ret;
        latency_ns = sub64 now start;
        now = updated;
      } in
      (
        λ p. update-Agree s pid n io room p (bytes_of-lt ret) (omega arith) op (c p),
        assumption (update-HasRoom s pid n io room),
      )

  finish_started-IsConsistent :
      (o : Option ℕ) (s : State stats times pids) (pid operation : ℕ) (ret : ℤ) (now updated n : ℕ)
      → (operation ≡ op_read) ⊎ (operation ≡ op_write)
      → HasRoom (suc n) s
      → IsConsistent s
      → let s' = finish_started stats times pids o s pid operation ret now updated in
        IsConsistent s' × HasRoom n s'
  unfolding finish_started
  finish_started-IsConsistent none s pid operation ret now updated n op room c = (c, omega arith)
  finish_started-IsConsistent (some start) s pid operation ret now updated n op room c =
      finish-IsConsistent s pid operation ret start now updated n op room c

  operation_of-cases :
      (call : Call) → (operation_of call ≡ op_read) ⊎ (operation_of call ≡ op_write)
  operation_of-cases read = inl refl
  operation_of-cases write = inr refl
  operation_of-cases pread64 = inl refl
  operation_of-cases pwrite64 = inr refl
  operation_of-cases readv = inl refl
  operation_of-cases writev = inr refl

  handle-IsConsistent :
      (s : State stats times pids) (e : Event) (n : ℕ)
      → HasRoom (suc n) s
      → IsConsistent s
      → IsConsistent (handle stats times pids s e) × HasRoom n (handle stats times pids s e)
  unfolding handle handle_sys_enter handle_sys_exit
  handle-IsConsistent s (sys_enter call pid now) n room c = elim (Bool-cases (pid == 0)) [
    | inl z ↦ rw z (c, omega arith)
    | inr nz ↦ rw nz (c, omega arith)
  ]
  handle-IsConsistent s (sys_exit call pid ret now updated) n room c =
      elim (Bool-cases (pid == 0)) [
        | inl z ↦ rw z (c, omega arith)
        | inr nz ↦ rw nz (
            finish_started-IsConsistent (times.lookup s.io_start_time pid) s pid (operation_of call)
              ret now updated n (operation_of-cases call) room c)
      ]

  -- For every process, whatever the traced calls and their order: if the two maps of records have
  -- room for one more entry per event, the process's record agrees after the events with those
  -- of its reads and writes if it did before: the bytes and operations of each, the sum of the
  -- latencies modulo 2^64, and the greater of the two greatest latencies.
  pub run-IsConsistent :
      (es : List Event) (s : State stats times pids)
      → HasRoom (length es) s
      → IsConsistent s
      → IsConsistent (run stats times pids s es)
  unfolding run
  run-IsConsistent [] s room c = c
  run-IsConsistent (e ∷ es) s room c =
      let step = handle-IsConsistent s e (length es) room c in
      run-IsConsistent es (handle stats times pids s e) step.1 step.0
