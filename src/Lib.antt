-- ===== src/Lib.antt =====
-- Honey Potion translates Elixir programs to C for eBPF. This library models the C of the
-- repository: the Elixir runtime that every generated program includes, the C that the compiler
-- generated for the examples, and the eBPF programs of the benchmarks, with the state that they keep
-- in the kernel's maps.
--
-- Parts:
-- - Runtime: priv/c_boilerplates, the tagged values, arithmetic, comparisons and Copy. Values holds
--   the types of runtime_generic.bpf.h; Arith, Compare and Pool the functions of
--   runtime_functions.bpf.c, each under the name of its source. Sums, Products, Quotients, Orders and
--   Copies prove what they compute.
-- - Generated: examples/*/lib/src/*.bpf.c, the main_func of every example. Machine is their common
--   frame: a state is the memory of one processor (the pools), the maps of the program and the lines
--   that it printed; an action returns a value or raises a fault, and the state stays changed; `main`
--   is the prologue `boot`, the user code, and `catch`. Cells holds the sequences of C that are
--   emitted for lists, pairs, string literals and patterns, Access those for maps. Constants has the
--   straight-line programs (Basic, Case, Cond, Cp, CtxAccess, Dce, GetPid, HelloWorld, IfThenElse,
--   ListSyscalls), Counts has CountSyscalls, ForceKill and TrafficCounter, Fact, LinkedList and
--   DropUdp the programs of those names, Tuples has TupleExample, ListExample and
--   IntegerStringPatternMatching, IoMonitor has DiskMonitor and NetworkMonitor, Tasks has
--   MemoryMonitor and CpuMonitor, MapsExample has Maps. Boot, Tallies, Marks, Frames, Patterns and the
--   children of the others are their proofs. An `int` that a `long` is assigned to is `s32`; the value
--   of a cond or an update that no code reads is left out.
-- - CpuMonitor, DiskMonitor, NetworkMonitor, MemoryMonitor: benchmarks/<name>/prog.bpf.c. A state is
--   a record of the program's maps, an event one firing of a tracepoint with what its handler reads
--   from the kernel, `handle` the handlers and `run` a sequence of events.
-- - DropUdp, XdpDump, FindString: benchmarks/dropudp, xdpdump and findstring, prog.bpf.c. Packet
--   holds what they share: a packet is its size and its bytes, and a load or store outside it gives
--   `none`, so a result that is `some` also says that every access was inside. In FindString the
--   rows of goto_func are a parameter, the loop runs on its own count of 2000, and a chain of runs on
--   the number of tail calls, of which the kernel allows 33. FindString/Queue is queue.h, and
--   FindString/Automaton the table that fillMapStrings of prog.c builds: the trie in Automaton, the
--   failures in Link, the rows in Fill, and the proofs in the other children. The automaton's struct
--   is one block of ints as 32-bit patterns, in the order of its fields, so that an index past a row
--   reads what follows it; outside the block is a fault. The walk over failures and the search run on
--   fuel: of the walk, one more than the rank of a state is enough.
-- - Factorial: benchmarks/factorial, the kernel's prog.bpf.c and the loop of prog.c; one unit of fuel
--   is one round of `while(continuing)`. What the ring buffer's memory holds when it is reserved is
--   a part of each write, since the last round's decides whether the loop ends.
-- - TrafficView: benchmarks/networkmonitor/prog.c, the list of connections, the growth of their
--   counters and the position of the view. MemoryView: benchmarks/memorymonitor/prog.c, the list of
--   processes, its refresh, and the view. DiskView: benchmarks/diskmonitor/prog.c, the list of
--   entries, its refresh, and which entries are shown. CpuView: benchmarks/cpumonitor/prog.c, the
--   same of processes, over two of the maps of CpuMonitor. Monitor is the list and the loops that
--   they share. Reading a map runs on fuel: more than the number of its keys is enough, and in
--   DiskView and CpuView as much.
-- - Loader: examples/force_kill/lib/src/ForceKill.c, which loads the generated program of that name
--   and prints its map; a loop for ever is one that any fuel leaves unfinished.
-- - Counters: benchmarks/countsyscalls, forcekill and trafficcount, prog.bpf.c.
--
-- Bpf is the kernel's side, which the repository calls and does not implement: a hash map is a
-- record of the helpers with the behaviour that their manual page documents, a parameter of every
-- program that uses one, and an array map another (Bpf/Array). Bpf/Table is a bounded table with that
-- behaviour, at which the tests run. Bpf/Credit and Bpf/Touch are the two ways in which the monitors
-- change an entry. Time, the current process and the arguments of a tracepoint are arguments of
-- the handlers; the tracepoints of a trace fire one after the other, so races between processors
-- are not modelled.
--
-- Base holds what the modules share. A machine integer keeps its wrap-around: `u32`, `u64` and
-- `sub64` on natural numbers, `s32` and `s64` on integers.
--
-- Not modelled: the compiler (Elixir), the other loaders that it generated for examples/ (libbpf set-up
-- and printing), and the rest of the user-space halves of the benchmarks. That the search of
-- findstring/prog.c links the trie is not proved: the index 26 of its loop can link it wrongly.
pub mod Base
pub mod Runtime
pub mod Bpf
pub mod CpuMonitor
pub mod CpuView
pub mod DiskMonitor
pub mod NetworkMonitor
pub mod Packet
pub mod DropUdp
pub mod XdpDump
pub mod MemoryMonitor
pub mod FindString
pub mod Factorial
pub mod Counters
pub mod TrafficView
pub mod Monitor
pub mod Loader
pub mod MemoryView
pub mod DiskView
pub mod Generated
