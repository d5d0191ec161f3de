-- ===== src/Orchestrator.antt =====
-- orchestrator.py, `BotOrchestrator`: the decision cycle over the engines, the lifecycle of trades, the
-- guards of safe mode and the schedule.
pub mod World
pub mod Lifecycle
pub mod Cycle
pub mod Guards
pub mod Schedule
pub mod Engine
pub mod Exits
pub mod Opens
pub mod Ends
pub mod Deadline
pub mod KillSwitch
pub mod Loop
pub mod Locked
pub mod Start
pub mod Suspect
pub mod Quiet
pub mod Spaced
