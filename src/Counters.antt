-- ===== src/Counters.antt =====
-- The small programs that count or note events in one map: prog.bpf.c of benchmarks/countsyscalls,
-- benchmarks/forcekill and benchmarks/trafficcount.
pub mod Syscalls
pub mod Kills
pub mod Traffic
