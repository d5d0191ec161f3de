-- ===== src/Core/Signal/Config.antt =====
-- core/signal_engine.py: `SignalConfig`.
use btc_bot.Prelude.{Option, List, Bool}
use btc_bot.Core.Models.{Direction, RegimeState}

pub record SignalConfig (W : Type 0) : Type 0 where
  pub confluence_min : W
  pub min_sweep_depth_pct : W
  pub ema_trend_gap_pct : W
  pub entry_offset_atr : W
  pub invalidation_offset_atr : W
  pub min_stop_distance_pct : W
  pub tp1_atr_mult : W
  pub tp2_atr_mult : W
  pub weight_sweep_detected : W
  pub weight_reclaim_confirmed : W
  pub weight_cvd_divergence : W
  pub weight_tfi_impulse : W
  pub weight_force_order_spike : W
  pub weight_regime_special : W
  pub weight_ema_trend_alignment : W
  pub weight_funding_supportive : W
  pub direction_tfi_threshold : W
  pub direction_tfi_threshold_inverse : W
  pub tfi_impulse_threshold : W
  pub allow_uptrend_pullback : Bool
  pub uptrend_pullback_tfi_threshold : W
  pub uptrend_pullback_min_sweep_depth_pct : W
  pub uptrend_pullback_confluence_min : W
  pub regime_direction_whitelist : RegimeState → Option (List Direction)
