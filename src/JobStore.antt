-- ===== src/JobStore.antt =====
-- apps/desktop/src-tauri/src/database.rs: the tables of the jobs and what the operations of a
-- `Database` do to them. An SQL statement is a function on the rows of its table; a transaction
-- that is not committed leaves the tables as they were, so an error returns no new tables.
pub mod Tables
pub mod Sql
pub mod Evidence
pub mod Changes
pub mod Publication
pub mod Balanced
pub mod Recovery
pub mod Steps
pub mod Rows
pub mod Lifecycle
pub mod Intents
pub mod History
pub mod Refusal
pub mod Outcomes
pub mod Completion
pub mod Proofs
pub mod Clean
pub mod Endings
mod Tests
