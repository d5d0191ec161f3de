-- ===== src/Core/Models/Signals.antt =====
-- core/models.py: `SignalCandidate`, `SignalDiagnostics` and `ExecutableSignal`. Each string that
-- an engine writes as a reason is a constructor.
use btc_bot.Prelude.{ℕ, String, Option, List, Bool}
use btc_bot.Core.Models.Enums.{
  Time, Direction, RegimeState, SessionBucket, VolatilityBucket, SweepSide,
}
use btc_bot.Core.Models.FeatureSet.{ContextBlock}

pub data SignalReason : Type 0 where
  uptrend_pullback_entry liquidity_sweep_detected reclaim_confirmed : SignalReason
  cvd_bullish_divergence cvd_bearish_divergence tfi_impulse force_order_spike : SignalReason
  regime_special ema_trend_alignment funding_supportive : SignalReason

pub data SignalBlock : Type 0 where
  no_sweep missing_sweep_level regime_direction_whitelist uptrend_pullback_weak : SignalBlock
  sweep_too_shallow uptrend_continuation_weak no_reclaim direction_unresolved : SignalBlock
  confluence_below_min : SignalBlock

-- `liquidity_sweep_reclaim_{direction.lower()}`
pub data SetupType : Type 0 where
  liquidity_sweep_reclaim : Direction → SetupType

-- The dictionary of `_build_candidate_features_payload`.
pub record FeaturesPayload (W : Type 0) : Type 0 where
  pub atr_15m : W
  pub atr_4h : W
  pub atr_4h_norm : W
  pub ema50_4h : W
  pub ema200_4h : W
  pub sweep_depth_pct : Option W
  pub sweep_side : Option SweepSide
  pub funding_pct_60d : W
  pub oi_zscore_60d : W
  pub cvd_15m : W
  pub tfi_60s : W
  pub force_order_rate_60s : W
  pub force_order_spike : Bool

pub record SignalCandidate (W : Type 0) : Type 0 where
  pub signal_id : String
  pub timestamp : Time
  pub direction : Direction
  pub setup_type : SetupType
  pub entry_reference : W
  pub invalidation_level : W
  pub tp_reference_1 : W
  pub tp_reference_2 : W
  pub confluence_score : W
  pub regime : RegimeState
  pub reasons : List SignalReason
  pub features_json : FeaturesPayload W

pub record SignalDiagnostics (W : Type 0) : Type 0 where
  pub timestamp : Time
  pub config_hash : String
  pub regime : RegimeState
  pub blocked_by : Option SignalBlock
  pub sweep_detected : Bool
  pub reclaim_detected : Bool
  pub sweep_side : Option SweepSide
  pub sweep_level : Option W
  pub sweep_depth_pct : Option W
  pub direction_inferred : Option Direction
  pub direction_allowed : Option Bool
  pub confluence_preview : Option W
  pub close_vs_reclaim_buffer_atr : Option W
  pub wick_vs_min_atr : Option W
  pub sweep_vs_buffer_atr : Option W
  pub candidate_reasons_preview : List SignalReason
  pub context_session_label : Option SessionBucket
  pub context_volatility_label : Option VolatilityBucket
  pub context_policy_version : Option String
  pub context_eligible : Option Bool
  pub context_block_reason : Option ContextBlock
  pub context_neutral_mode_active : Option Bool

pub data GovernanceNote (W : Type 0) : Type 0 where
  daily_dd_exceeded weekly_dd_exceeded : W → GovernanceNote W
  consecutive_losses_limit max_trades_per_day : ℕ → GovernanceNote W
  session_gated no_trade_window : GovernanceNote W
  -- the whole seconds that are left
  cooldown_after_loss : ℕ → GovernanceNote W
  duplicate_level governance_pass : GovernanceNote W

pub record ExecutableSignal (W : Type 0) : Type 0 where
  pub signal_id : String
  pub timestamp : Time
  pub direction : Direction
  pub entry_price : W
  pub stop_loss : W
  pub take_profit_1 : W
  pub take_profit_2 : W
  pub rr_ratio : W
  pub approved_by_governance : Bool
  pub governance_notes : List (GovernanceNote W)
