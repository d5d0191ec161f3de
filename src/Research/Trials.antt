-- ===== src/Research/Trials.antt =====
-- research_lab/types.py: the parts of a trial that the selection reads.
use btc_bot.Prelude.{ℕ, String, Option}

pub record ObjectiveMetrics (W : Type 0) : Type 0 where
  pub expectancy_r : W
  pub profit_factor : W
  pub max_drawdown_pct : W
  pub trades_count : ℕ
  pub sharpe_ratio : W
  pub pnl_abs : W
  pub win_rate : W

pub record SignalFunnel : Type 0 where
  pub signals_generated : ℕ
  pub signals_regime_blocked : ℕ
  pub signals_governance_rejected : ℕ
  pub signals_risk_rejected : ℕ
  pub signals_executed : ℕ

pub record TrialEvaluation (W : Type 0) : Type 0 where
  pub trial_id : String
  pub metrics : ObjectiveMetrics W
  pub funnel : SignalFunnel
  pub rejected_reason : Option String
