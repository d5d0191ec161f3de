-- ===== src/Backtest.antt =====
-- The package backtest/ of the repository.
pub mod Performance
pub mod Streaks
pub mod Drawdown
pub mod Order
pub mod Fill
pub mod Positions
pub mod Settling
pub mod Exits
pub mod Trailing
pub mod Guarded
pub mod Runtime
pub mod Runner
pub mod Run
pub mod Booked
pub mod Sound
pub mod Replayed
pub mod Finished
pub mod Seen
pub mod Ended
