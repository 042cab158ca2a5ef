-- ===== src/OutputNames.antt =====
-- The names of output files: which ones path_policy.rs admits, and the names that publication.rs
-- tries when a name is taken. A name is one component of a path.
pub mod Policy
pub mod Decimal
pub mod Collision
pub mod Safety
pub mod Attempts
mod Tests
