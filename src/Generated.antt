-- ===== src/Generated.antt =====
-- The C that the compiler generated for the programs of examples/ (lib/src/*.bpf.c). Machine is
-- what every generated `main_func` has in common; the other modules are the programs.
pub mod Machine
pub mod Boot
pub mod Constants
pub mod Access
pub mod Counts
pub mod Tallies
pub mod Marks
pub mod Frames
pub mod Fact
pub mod Cells
pub mod LinkedList
pub mod Tuples
pub mod Patterns
pub mod IoMonitor
pub mod Tasks
pub mod DropUdp
pub mod MapsExample
mod Tests
