-- ===== src/Storage.antt =====
-- crates/ruflo-storage/src/appliance_state.rs: the SQLite tables of agents, jobs and settings of
-- one project (Storage/Jobs) and the ledger of spending that all projects share (Storage/Spend). A
-- table is a list of rows in the order of their insertion; that the disk or the database file fails
-- is not modelled, and a primary key that is taken is.
pub mod Jobs
pub mod Migration
pub mod Spend
