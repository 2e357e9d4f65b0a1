-- ===== src/Dual.antt =====
-- crates/ruflo-codex-cli/src/dual_scheduler.rs: the runner of Codex workers. Dual/Workers reads the
-- workers off the command line, Dual/Batches runs them; Dual/Options has the small tests and
-- parsers. Git, the memory store and the workers' processes are arguments, and what is printed is
-- not modelled.
pub mod Options
pub mod Workers
pub mod Naming
pub mod Parsing
pub mod Batches
pub mod Cleanup
pub mod Order
pub mod Outcome
pub mod Run
