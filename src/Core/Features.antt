-- ===== src/Core/Features.antt =====
-- core/feature_engine.py: `FeatureEngine` and the functions it is made of.
pub mod Numbers
pub mod Levels
pub mod Clusters
pub mod Parted
pub mod Sweep
pub mod Found
pub mod Upsert
pub mod Tidy
pub mod Divergence
pub mod Config
pub mod Snapshot
pub mod History
pub mod Quality
pub mod Engine
