-- ===== src/Viewer.antt =====
-- apps/desktop/src-tauri/src/viewer_sessions.rs: the sessions of open documents, the ranges that the
-- viewer reads, the snapshots of a session's file and the destinations that a user has granted.
pub mod Errors
pub mod Checks
pub mod Sessions
pub mod Calls
pub mod Limits
pub mod Generations
pub mod Closing
pub mod Files
pub mod Ranges
pub mod Reads
pub mod Snapshots
pub mod Answers
mod Tests
