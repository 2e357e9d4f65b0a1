-- ===== src/Examples.antt =====
-- The theorems at concrete inputs, and runs of the operations.
pub mod Claims
pub mod Runtime
pub mod Gates
pub mod Tools
pub mod Stores
pub mod Flywheel
pub mod Migration
pub mod Dual
pub mod Authorization
pub mod Lifecycle
pub mod Settings
pub mod Sessions
