-- ===== src/Core/Models/Accounts.antt =====
-- core/models.py: positions, trades, and the runtime state that the engines read.
use btc_bot.Prelude.{ℕ, String, Option, Bool}
use btc_bot.Core.Models.Enums.{Time, Direction, PositionStatus, BotMode}

pub record Position (W : Type 0) : Type 0 where
  pub position_id : String
  pub symbol : String
  pub direction : Direction
  pub status : PositionStatus
  pub entry_price : W
  pub size : W
  pub leverage : ℕ
  pub stop_loss : W
  pub take_profit_1 : W
  pub take_profit_2 : W
  pub opened_at : Time
  pub updated_at : Time
  pub signal_id : String

pub record BotState (W : Type 0) : Type 0 where
  pub mode : BotMode
  pub healthy : Bool
  pub safe_mode : Bool
  pub open_positions_count : ℕ
  pub consecutive_losses : ℕ
  pub daily_dd_pct : W
  pub weekly_dd_pct : W
  pub last_trade_at : Option Time
  pub last_error : Option String
  pub safe_mode_entry_at : Option Time

pub record GovernanceRuntimeState (W : Type 0) : Type 0 where
  pub trades_today : ℕ
  pub consecutive_losses : ℕ
  pub daily_dd_pct : W
  pub weekly_dd_pct : W
  pub last_trade_at : Option Time
  pub last_loss_at : Option Time

pub record RiskRuntimeState (W : Type 0) : Type 0 where
  pub consecutive_losses : ℕ
  pub daily_dd_pct : W
  pub weekly_dd_pct : W

pub data ExitReason : Type 0 where
  sl tp tp_partial tp_trail timeout end_of_backtest : ExitReason

pub record SettlementMetrics (W : Type 0) : Type 0 where
  pub exit_price : W
  pub pnl_abs : W
  pub pnl_r : W
  pub mae : W
  pub mfe : W
  pub exit_reason : ExitReason
  pub funding_paid : W
