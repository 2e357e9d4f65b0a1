-- ===== src/Lib.antt =====
-- A model of the core of ruflo_rust, a tool that runs agents, tasks and swarms, offers tools over
-- MCP and keeps its state in JSON files and SQLite tables, with the theorems that make it correct.
--
-- The parts, and how they interact:
-- - Types: src/crates/ruflo-types (capabilities and the error type), which every crate uses.
-- - Runtime: src/crates/ruflo-runtime/src/{lib,agent,task,swarm,workflow}.rs. `RuntimeState` is the
--   state behind the mutex, and each method is a function of the same name from the state to its
--   result and the next state. Runtime/Steps has histories of calls, Runtime/Updates the invariant,
--   Runtime/Invariant what they keep, Runtime/Agents and Runtime/Tasks the life of agents, tasks
--   and swarms.
-- - Transport: src/crates/ruflo-runtime/src/transport.rs, with the adapter as an argument.
-- - Config: the layers of src/crates/ruflo-config/src/lib.rs (`load_with`, `EnvOverlay`,
--   `CliOverlay`); Config/File is the parser of the project file, Config/Lines says what its lines
--   mean, and Config/Precedence is about which layer wins.
-- - Policy: src/crates/ruflo-config/src/policy.rs, `ToolPolicy` made from a configuration and the
--   registered tools; Policy/Decisions is about what it decides, Policy/Discovery about the tools
--   it lists.
-- - Mcp: src/crates/ruflo-mcp/src/dispatcher.rs, which asks the policy on each call. Mcp/Arguments
--   reads arguments, Mcp/Spawn is the handler `agent_spawn`, Mcp/Errors is `map_error`, Mcp/Schemas
--   has the schemas; Mcp/Gate relates the list of tools to the calls, by the searches of
--   Mcp/Lookup.
-- - Storage: src/crates/ruflo-storage/src/appliance_state.rs. Storage/Spend is `SpendLedger`, and
--   Storage/Jobs is `ApplianceStore`, whose agents `agent_spawn` records; Storage/Jobs/Claiming is
--   about its jobs and Storage/Jobs/Agents about its agents.
-- - Actions: src/crates/ruflo-actions/src/executor.rs, with the manifests of manifest.rs in
--   Actions/Manifest.
-- - Claims: src/crates/ruflo-cli/src/services/claim_service.rs over JSON values. Claims/Changes has
--   what each operation writes in an entry. Claims/View reads a claim off its entry, Claims/Entries
--   is about the shared frame of the operations, Claims/Transitions states them as transitions of
--   one claim, which Claims/Edits and Claims/Refinement relate to the file; Claims/Safety is about
--   histories.
-- - Services: src/crates/ruflo-cli/src/services/{lease,worker_queue,bounded_pool}.rs.
-- - Flywheel: src/crates/ruflo-cli/src/flywheel_ledger.rs. Flywheel/Recorded and Flywheel/Chain are
--   about the receipts that the program appends, Flywheel/Tampering about entries that someone
--   changes, Flywheel/Promotion has `promote`, which compares and swaps the champion.
-- - Storage/Migration: src/crates/ruflo-storage/src/migration.rs. Storage/Migration/Files has the
--   calls on the disk, which may fail, Calls what each leaves, Ends and Keeps the rules for blocks
--   of them, Recovery, Steps and Outcome follow `commit` under failures, and Calm follows it
--   without.
-- - Dual: src/crates/ruflo-codex-cli/src/dual_scheduler.rs. Dual/Options and Dual/Workers read the
--   command line and the configuration, Dual/Batches and Dual/Run are the preparation and the loop;
--   Dual/Naming and Dual/Parsing are about the identifiers, Dual/Order and Dual/Outcome about what
--   runs, Dual/Cleanup about git.
-- - Authorization: src/crates/ruflo-cli/src/claims.rs, `check` and `grant`; Authorization/Granting
--   is about `check` after `grant`, and Authorization/Revoking has `revoke`.
-- - Settings: src/crates/ruflo-cli/src/config_file.rs. Settings/Nested and Settings/Keys are about
--   `get` after `set`, Settings/Providers has the changes of the list of providers, and
--   Settings/Providers/Names its names.
-- - Lifecycle: src/crates/ruflo-cli/src/lifecycle.rs over the files of a project and the store of
--   Storage/Jobs. Lifecycle/Agents, Lifecycle/Tasks and Lifecycle/Swarms have the operations of
--   each; below them, Rows and Leftover are about the agents, Rules, History, Assignment and
--   Creation about the tasks, and Growing, Active, Scaling and Stopped about the swarm, whose
--   `scale_swarm` is in Scale. Lifecycle/Sessions saves and restores them; Writing, Saving, Listed,
--   Restored and Restoring below it are the steps of the round trip, and Lifecycle/Naming is about
--   lists with names.
-- - Hive: proposals and votes of src/crates/ruflo-cli/src/hive_mind.rs.
-- - Prelude, Dict, Pigeonhole, Json: shared helpers, maps, names that differ, and the JSON values
--   of serde_json.
-- - Examples: the theorems at concrete inputs.
--
-- Conventions. Integers are natural numbers; a 64-bit counter that grows wraps with `% 2 ^ 64`, and
-- a theorem that needs room says so; the suffix of a worker is an `i32`, whose overflow is a panic.
-- A clock reading, a process number and an identifier that the system makes are arguments. A map is
-- an association list and a set a list of its members. A JSON file is a value, and the environment
-- says whether the lock was given and the write succeeded; the outcome `none` is a panic. Where a
-- float may be in a file (Flywheel, Settings), the environment says also what serde_json reads from
-- the text that it wrote, which may be another float. In Flywheel an append may stop between any
-- two characters of its line, and the next one goes on there. A SQLite table is a list of rows,
-- with its primary key. A method runs from start to end: interleavings inside one are not modelled.
-- Most functions recurse on their data. On fuel are `decimal`, with 20 turns for the at most 20
-- digits of 64 bits; `free_id`, with one turn more than there are identifiers in use, since the
-- names it tries differ (Dual/Naming); and `chunks`, with one turn for each worker; and `scale_up`,
-- with a turn for each agent that is there or is asked for. The loops over 1000 suffixes count
-- their turns. A call of the disk in Storage/Migration may fail at any point, and other calls of
-- files as their modules say.
--
-- Not modelled: printing, processes, files and sockets, the parsers of the other command lines, the
-- memory store and its three MCP handlers (arguments of the registry), the code on floating-point
-- numbers (embeddings, budgets, pheromones), the generated catalogs, and the bindings.
pub mod Prelude
pub mod Dict
pub mod Pigeonhole
pub mod Types
pub mod Json
pub mod Runtime
pub mod Claims
pub mod Config
pub mod Policy
pub mod Services
pub mod Transport
pub mod Actions
pub mod Flywheel
pub mod Dual
pub mod Authorization
pub mod Settings
pub mod Lifecycle
pub mod Hive
pub mod Mcp
pub mod Storage
pub mod Examples
