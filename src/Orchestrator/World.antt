-- ===== src/Orchestrator/World.antt =====
-- orchestrator.py: what the orchestrator is given, what it keeps, and what a cycle takes from outside.
-- Logs, metrics and alerts leave no trace in the state.
use btc_bot.Prelude.{ℕ, String, Option, List, ◌⊎◌}
use btc_bot.Core.Models.{Time, BotMode, RegimeState, Direction, ExitReason, ExecutableSignal}
use btc_bot.Core.Features.Config.{FeatureEngineConfig}
use btc_bot.Core.Features.History.{Histories}
use btc_bot.Core.Features.Snapshot.{MarketSnapshot}
use btc_bot.Core.Regime.{RegimeConfig}
use btc_bot.Core.Context.{ContextConfig}
use btc_bot.Core.Signal.Config.{SignalConfig}
use btc_bot.Core.Governance.{GovernanceConfig, Levels}
use btc_bot.Core.Risk.{RiskConfig}
use btc_bot.Core.Funding.{RawSample}
use btc_bot.Execution.Paper.{Quotes}
use btc_bot.Storage.Tables.{Tables}
use btc_bot.Storage.Runtime.{Store}

pub record Settings (W : Type 0) : Type 0 where
  pub mode : BotMode
  pub schema_version : String
  pub config_hash : String
  pub features : FeatureEngineConfig W
  pub regime : RegimeConfig W
  pub context : ContextConfig W
  pub signal : SignalConfig W
  pub governance : GovernanceConfig W
  pub risk : RiskConfig W
  pub store : Store W
  pub kill_switch_max_exec_errors : ℕ
  pub health_failures_before_safe_mode : ℕ

-- `outcome_group`
pub data OutcomeGroup : Type 0 where
  unknown snapshot_failed lifecycle_failed safe_mode_skip no_signal : OutcomeGroup
  governance_veto risk_block signal_generated execution_failed : OutcomeGroup

-- A row of `decision_outcomes`, without its texts and ids of snapshots
pub record DecisionOutcome : Type 0 where
  pub cycle_timestamp : Time
  pub outcome_group : OutcomeGroup
  pub regime : Option RegimeState
  pub signal_id : Option String

pub record World (W : Type 0) : Type 0 where
  pub tables : Tables W
  pub histories : Histories W
  pub levels : Levels W
  pub decision_outcomes : List DecisionOutcome
  pub critical_execution_errors : ℕ
  pub consecutive_health_failures : ℕ

-- A snapshot that is built and recorded: its id, its quotes, and the `open_time` of each candle
pub record Feed (W : Type 0) : Type 0 where
  pub snapshot : MarketSnapshot W
  pub open_times : List (Option Time)
  pub snapshot_id : String
  pub bid : W
  pub ask : W

-- The contract of execution/execution_engine.py: an error, if one is raised, and the tables after.
pub record ExecutionEngine (W : Type 0) : Type 0 where
  pub execute_signal : ExecutableSignal W → W → ℕ → Quotes W → Tables W → Option String × Tables W

-- What one cycle takes from outside: the times that the calls read from the clock, the result of
-- `build_snapshot`, the ids that are drawn, the stored funding rates, and the text of an error.
pub record Inputs (W : Type 0) : Type 0 where
  pub now : Time
  pub governance_at : Time
  pub risk_at : Time
  pub marked_at : Time
  pub built : String ⊎ Feed W
  pub new_id : String
  pub trade_id : String
  pub funding_rates : String → Time → Time → List (RawSample W)
  pub engine : ExecutionEngine W

pub record ClosedEvent (W : Type 0) : Type 0 where
  pub position_id : String
  pub symbol : String
  pub direction : Direction
  pub entry_price : W
  pub exit_price : W
  pub pnl_abs : W
  pub exit_reason : ExitReason
  pub closed_at : Time
