-- ===== src/Tests.antt =====
-- Examples: every theorem at a concrete input, over numbers with twelve decimals.
mod Samples
mod Governance
mod Risk
mod Market
mod Signal
mod Pareto
mod Features
mod Backtest
mod Replay
mod Constraints
mod Execution
mod Storage
mod Recovery
mod Windows
mod Nested
mod Live
mod Orchestrator
