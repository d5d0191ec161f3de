-- ===== src/Core/Signal.antt =====
-- core/signal_engine.py: `SignalEngine`. The random part of a signal's name is in the argument
-- `new_id` of `generate`.
pub mod Config
pub mod Score
pub mod Diagnose
pub mod Blocks
pub mod Candidates
pub mod Weights
pub mod Geometry
