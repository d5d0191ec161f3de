-- ===== src/Core/Models/FeatureSet.antt =====
-- core/models.py: `FeatureQuality`, `Features` and `MarketContext`.
use btc_bot.Prelude.{ℕ, String, Option, List, Bool}
use btc_bot.Core.Models.Enums.{Time, QualityStatus, SessionBucket, VolatilityBucket, SweepSide}

-- What the metadata of a quality mark holds: counts, ratios, and instants that may be missing.
pub data Datum (W : Type 0) : Type 0 where
  count : ℕ → Datum W
  number : W → Datum W
  moment : Option Time → Datum W

pub record FeatureQuality (W : Type 0) : Type 0 where
  pub status : QualityStatus
  pub reason : String
  pub metadata : List (String × Datum W)
  pub provenance : String

-- The class methods `ready`, `degraded` and `unavailable`, which differ in the status alone.
abbrev pub quality_of :
    {W : Type 0} → QualityStatus → String → List (String × Datum W) → String → FeatureQuality W
quality_of status reason metadata provenance = record {
  status = status;
  reason = reason;
  metadata = metadata;
  provenance = provenance;
}

pub record Features (W : Type 0) : Type 0 where
  pub schema_version : String
  pub config_hash : String
  pub timestamp : Time
  pub atr_15m : W
  pub atr_4h : W
  pub atr_4h_norm : W
  pub ema50_4h : W
  pub ema200_4h : W
  pub equal_lows : List W
  pub equal_highs : List W
  pub sweep_detected : Bool
  pub reclaim_detected : Bool
  pub sweep_level : Option W
  pub sweep_depth_pct : Option W
  pub sweep_side : Option SweepSide
  pub close_vs_reclaim_buffer_atr : Option W
  pub wick_vs_min_atr : Option W
  pub sweep_vs_buffer_atr : Option W
  pub funding_8h : W
  pub funding_sma3 : W
  pub funding_sma9 : W
  pub funding_pct_60d : W
  pub oi_value : W
  pub oi_zscore_60d : W
  pub oi_delta_pct : W
  pub cvd_15m : W
  pub cvd_bullish_divergence : Bool
  pub cvd_bearish_divergence : Bool
  pub tfi_60s : W
  pub force_order_rate_60s : W
  pub force_order_spike : Bool
  pub force_order_decreasing : Bool
  pub passive_etf_bias_5d : Option W
  pub quality : List (String × FeatureQuality W)

-- `context_unfavorable:{session}:{volatility}`
pub data ContextBlock : Type 0 where
  context_unfavorable : SessionBucket → VolatilityBucket → ContextBlock

pub record MarketContext : Type 0 where
  pub session_bucket : SessionBucket
  pub volatility_bucket : VolatilityBucket
  pub context_eligible : Bool
  pub context_block_reason : Option ContextBlock
  pub context_policy_version : String
  pub neutral_mode_active : Bool
  pub quality_flags : List String
