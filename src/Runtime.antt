-- ===== src/Runtime.antt =====
-- The Elixir runtime in C that every generated program includes (priv/c_boilerplates).
pub mod Values
pub mod Arith
pub mod Compare
pub mod Pool
pub mod Sums
pub mod Quotients
pub mod Products
pub mod Orders
pub mod Copies
mod Tests
