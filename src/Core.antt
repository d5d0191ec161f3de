-- ===== src/Core.antt =====
-- The packages core/ of the repository: data model and decision engines.
pub mod Models
pub mod Candles
pub mod Governance
pub mod Risk
pub mod Regime
pub mod Context
pub mod Signal
pub mod Funding
pub mod Features
