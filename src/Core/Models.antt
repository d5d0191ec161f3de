-- ===== src/Core/Models.antt =====
-- core/models.py: the enumerations and the records that pass between the engines.
mod Enums
mod FeatureSet
mod Signals
mod Accounts
pub use Enums.*
pub use FeatureSet.*
pub use Signals.*
pub use Accounts.*
