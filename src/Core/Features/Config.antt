-- ===== src/Core/Features/Config.antt =====
-- core/feature_engine.py: `FeatureEngineConfig`. Periods, windows and counts are not negative.
use btc_bot.Prelude.{ℕ}

pub record FeatureEngineConfig (W : Type 0) : Type 0 where
  pub atr_period : ℕ
  pub ema_fast : ℕ
  pub ema_slow : ℕ
  pub equal_level_lookback : ℕ
  pub equal_level_tol_atr : W
  pub sweep_buf_atr : W
  pub sweep_proximity_atr : W
  pub reclaim_buf_atr : W
  pub wick_min_atr : W
  pub level_min_age_bars : ℕ
  pub min_hits : ℕ
  pub funding_window_days : ℕ
  pub oi_z_window_days : ℕ
  pub oi_baseline_days : ℕ
  pub force_order_history_points : ℕ
  pub cvd_divergence_window_bars : ℕ
  pub cvd_divergence_bars : ℕ
  pub flow_coverage_ready : W
  pub flow_coverage_degraded : W
  pub funding_coverage_ready : W
  pub funding_coverage_degraded : W
