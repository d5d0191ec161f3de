-- ===== src/Research.antt =====
-- The package research_lab/ of the repository: the selection of parameter trials.
pub mod Trials
pub mod Pareto
pub mod Constraints
pub mod Windows
pub mod Walk
pub mod Nested
