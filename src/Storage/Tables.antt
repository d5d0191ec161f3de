-- ===== src/Storage/Tables.antt =====
-- storage/schema.sql: the rows that storage/state_store.py reads and writes. A table is the list of
-- its rows in the order of insertion. Times are stored as ISO texts in UTC, which sort like the times.
use btc_bot.Prelude.{ℕ, String, Option, none, List, []}
use btc_bot.Core.Models.{
  Time, Direction, RegimeState, Position, BotState, ExitReason, FeaturesPayload,
}
use btc_bot.Execution.Paper.{OrderType, FillEvent}

pub record TradeRow (W : Type 0) : Type 0 where
  pub trade_id : String
  pub signal_id : String
  pub position_id : String
  pub opened_at : Time
  pub closed_at : Option Time
  pub direction : Direction
  pub regime : RegimeState
  pub confluence_score : W
  pub entry_price : W
  pub exit_price : Option W
  pub size : W
  pub fees_total : W
  pub funding_paid : W
  pub slippage_bps_avg : W
  pub pnl_abs : W
  pub pnl_r : W
  pub mae : W
  pub mfe : W
  pub exit_reason : Option ExitReason
  pub features_at_entry_json : FeaturesPayload W
  pub schema_version : String
  pub config_hash : String

-- A row of `daily_metrics`, without its date.
pub record DailyMetrics (W : Type 0) : Type 0 where
  pub trades_count : ℕ
  pub wins : ℕ
  pub losses : ℕ
  pub pnl_abs : W
  pub pnl_r_sum : W
  pub daily_dd_pct : W
  pub expectancy_r : W

pub data SafeModeEventType : Type 0 where
  entered cleared : SafeModeEventType

pub record SafeModeEvent : Type 0 where
  pub event_type : SafeModeEventType
  pub trigger : Option String
  pub reason : Option String
  pub timestamp : Time

-- The database. A day is the number of days since 1970.
pub record Tables (W : Type 0) : Type 0 where
  pub positions : List (Position W)
  pub executions : List (String × OrderType × FillEvent W)
  pub trade_log : List (TradeRow W)
  pub daily_metrics : List (ℕ × DailyMetrics W)
  pub bot_state : Option (BotState W)
  pub safe_mode_events : List SafeModeEvent

abbrev pub no_rows : {W : Type 0} → Tables W
no_rows = record {
  positions = [];
  executions = [];
  trade_log = [];
  daily_metrics = [];
  bot_state = none;
  safe_mode_events = [];
}
