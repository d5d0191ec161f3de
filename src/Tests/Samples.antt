-- ===== src/Tests/Samples.antt =====
-- Sample data for the examples.
use btc_bot.Prelude.{ℕ, ◌*◌, ◌/◌, true, false, Option, none, some, List, [], ◌∷◌}
use btc_bot.Prelude.Fixed.{ℤ, pos, scale}
use btc_bot.Core.Models.{
  Direction, RegimeState, SweepSide, PositionStatus, Features, SignalCandidate, ExecutableSignal,
  Position, GovernanceRuntimeState, RiskRuntimeState, SetupType, GovernanceNote, hours,
}
use btc_bot.Core.Governance.{GovernanceConfig}
use btc_bot.Core.Risk.{RiskConfig}
use btc_bot.Core.Signal.Config.{SignalConfig}
use btc_bot.Core.Candles.{Candle}

-- n, and n / 10000
abbrev pub whole : ℕ → ℤ
whole n = pos (n * scale)

abbrev pub basis : ℕ → ℤ
basis n = pos (n * (scale / 10_000))

abbrev pub features : Features ℤ
features = record {
  schema_version = "v1";
  config_hash = "h";
  timestamp = hours 10;
  atr_15m = whole 100;
  atr_4h = whole 400;
  atr_4h_norm = basis 40;
  ema50_4h = whole 99;
  ema200_4h = whole 100;
  equal_lows = [];
  equal_highs = [];
  sweep_detected = true;
  reclaim_detected = true;
  sweep_level = some (whole 60_000);
  sweep_depth_pct = some (basis 30);
  sweep_side = some SweepSide.low;
  close_vs_reclaim_buffer_atr = none;
  wick_vs_min_atr = none;
  sweep_vs_buffer_atr = none;
  funding_8h = whole 0;
  funding_sma3 = whole 0;
  funding_sma9 = whole 0;
  funding_pct_60d = whole 50;
  oi_value = whole 1;
  oi_zscore_60d = whole 0;
  oi_delta_pct = whole 0;
  cvd_15m = whole 3;
  cvd_bullish_divergence = true;
  cvd_bearish_divergence = false;
  tfi_60s = basis 2_000;
  force_order_rate_60s = whole 0;
  force_order_spike = false;
  force_order_decreasing = false;
  passive_etf_bias_5d = none;
  quality = [];
}

abbrev whitelist : RegimeState → Option (List Direction)
whitelist RegimeState.uptrend = some []
whitelist _ = some (Direction.long ∷ [])

abbrev pub signal_config : SignalConfig ℤ
signal_config = record {
  confluence_min = whole 3;
  min_sweep_depth_pct = basis 1;
  ema_trend_gap_pct = basis 63;
  entry_offset_atr = basis 500;
  invalidation_offset_atr = basis 7_500;
  min_stop_distance_pct = basis 15;
  tp1_atr_mult = basis 25_000;
  tp2_atr_mult = whole 4;
  weight_sweep_detected = basis 12_500;
  weight_reclaim_confirmed = basis 12_500;
  weight_cvd_divergence = basis 7_500;
  weight_tfi_impulse = basis 5_000;
  weight_force_order_spike = basis 4_000;
  weight_regime_special = basis 3_500;
  weight_ema_trend_alignment = basis 2_500;
  weight_funding_supportive = basis 2_000;
  direction_tfi_threshold = basis 500;
  direction_tfi_threshold_inverse = basis 0;
  tfi_impulse_threshold = basis 1_000;
  allow_uptrend_pullback = false;
  uptrend_pullback_tfi_threshold = basis 1_300;
  uptrend_pullback_min_sweep_depth_pct = basis 30;
  uptrend_pullback_confluence_min = whole 8;
  regime_direction_whitelist = whitelist;
}

abbrev pub candidate : SignalCandidate ℤ
candidate = record {
  signal_id = "sig-1";
  timestamp = hours 10;
  direction = Direction.long;
  setup_type = SetupType.liquidity_sweep_reclaim Direction.long;
  entry_reference = whole 60_000;
  invalidation_level = whole 59_900;
  tp_reference_1 = whole 60_300;
  tp_reference_2 = whole 60_400;
  confluence_score = whole 4;
  regime = RegimeState.normal;
  reasons = [];
  features_json = record {
    atr_15m = whole 100;
    atr_4h = whole 400;
    atr_4h_norm = basis 40;
    ema50_4h = whole 99;
    ema200_4h = whole 100;
    sweep_depth_pct = some (basis 30);
    sweep_side = some SweepSide.low;
    funding_pct_60d = whole 50;
    oi_zscore_60d = whole 0;
    cvd_15m = whole 3;
    tfi_60s = basis 2_000;
    force_order_rate_60s = whole 0;
    force_order_spike = false;
  };
}

abbrev pub governance_config : GovernanceConfig ℤ
governance_config = record {
  cooldown_minutes_after_loss = 60;
  duplicate_level_tolerance_pct = basis 10;
  duplicate_level_window_hours = 24;
  max_trades_per_day = 3;
  max_consecutive_losses = 3;
  daily_dd_limit = basis 300;
  weekly_dd_limit = basis 600;
  session_start_hour_utc = 0;
  session_end_hour_utc = 23;
  no_trade_windows_utc = (2, 3) ∷ [];
}

abbrev pub governance_state : GovernanceRuntimeState ℤ
governance_state = record {
  trades_today = 1;
  consecutive_losses = 1;
  daily_dd_pct = basis 100;
  weekly_dd_pct = basis 100;
  last_trade_at = some (hours 8);
  last_loss_at = some (hours 8);
}

abbrev pub risk_config : RiskConfig ℤ
risk_config = record {
  risk_per_trade_pct = basis 100;
  max_leverage = 5;
  high_vol_leverage = 3;
  min_rr = basis 28_000;
  max_open_positions = 2;
  max_consecutive_losses = 3;
  daily_dd_limit = basis 300;
  weekly_dd_limit = basis 600;
  max_hold_hours = 24;
  high_vol_stop_distance_pct = basis 100;
  partial_exit_pct = basis 5_000;
  trailing_atr_mult = whole 1;
}

abbrev pub risk_state : RiskRuntimeState ℤ
risk_state = record { consecutive_losses = 1; daily_dd_pct = basis 100; weekly_dd_pct = basis 100 }

abbrev pub signal : ExecutableSignal ℤ
signal = record {
  signal_id = "sig-1";
  timestamp = hours 10;
  direction = Direction.long;
  entry_price = whole 60_000;
  stop_loss = whole 59_900;
  take_profit_1 = whole 60_300;
  take_profit_2 = whole 60_400;
  rr_ratio = whole 3;
  approved_by_governance = true;
  governance_notes = GovernanceNote.governance_pass ∷ [];
}

abbrev pub position : Position ℤ
position = record {
  position_id = "p-1";
  symbol = "BTCUSDT";
  direction = Direction.long;
  status = PositionStatus.opened;
  entry_price = whole 60_000;
  size = basis 5_000;
  leverage = 5;
  stop_loss = whole 59_900;
  take_profit_1 = whole 60_300;
  take_profit_2 = whole 60_400;
  opened_at = hours 10;
  updated_at = hours 10;
  signal_id = "sig-1";
}

abbrev pub candles : List (Candle ℤ)
candles =
    record { opening = whole 60_000; high = whole 60_100; low = whole 59_950; close = whole 60_050 }
    ∷ record {
      opening = whole 60_050;
      high = whole 60_400;
      low = whole 60_000;
      close = whole 60_350;
    }
    ∷ []
