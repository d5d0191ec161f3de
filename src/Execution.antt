-- ===== src/Execution.antt =====
-- The package execution/ of the repository.
pub mod Paper
pub mod Orders
pub mod Live
pub mod Recovery
