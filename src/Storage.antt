-- ===== src/Storage.antt =====
-- storage/: the tables of the database, the queries of storage/repositories.py on them, and the
-- store of the runtime state.
pub mod Tables
pub mod Queries
pub mod Trigger
pub mod Runtime
pub mod State
pub mod Trades
pub mod Persister
pub mod SafeMode
pub mod Frame
pub mod Ids
pub mod Reach
pub mod Attempts
pub mod Sound
pub mod OpenTrades
pub mod Closing
pub mod Measures
