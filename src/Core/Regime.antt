-- ===== src/Core/Regime.antt =====
-- core/regime_engine.py: `RegimeEngine`.
pub mod Rules
use btc_bot.Prelude.{ℕ, Bool, true, false, not, ◌&&◌, ◌||◌, if◌then◌else◌}
use btc_bot.Prelude.Double.{Double, nought}
use btc_bot.Core.Models.{Features, RegimeState}

pub record RegimeConfig (W : Type 0) : Type 0 where
  pub ema_trend_gap_pct : W
  pub compression_atr_norm_max : W
  pub crowded_funding_extreme_pct : W
  pub crowded_oi_zscore_min : W
  pub post_liq_tfi_abs_min : W

module _ {W : Type 0} ⦃d : Double W⦄ where
  open d use {abs, sub, div, le, lt, eq, of_nat}

  unfoldable pub is_uptrend : RegimeConfig W → Features W → Bool
  is_uptrend c f =
      let gap = div (sub f.ema50_4h f.ema200_4h) f.ema200_4h in
      if eq f.ema200_4h nought
      then false
      else le c.ema_trend_gap_pct gap && lt c.compression_atr_norm_max f.atr_4h_norm

  unfoldable pub is_downtrend : RegimeConfig W → Features W → Bool
  is_downtrend c f =
      let gap = div (sub f.ema200_4h f.ema50_4h) f.ema200_4h in
      if eq f.ema200_4h nought
      then false
      else le c.ema_trend_gap_pct gap && lt c.compression_atr_norm_max f.atr_4h_norm

  unfoldable pub is_compression : RegimeConfig W → Features W → Bool
  is_compression c f = lt nought f.atr_4h_norm && le f.atr_4h_norm c.compression_atr_norm_max

  unfoldable pub is_crowded_leverage : RegimeConfig W → Features W → Bool
  is_crowded_leverage c f =
      let funding_extreme =
        le c.crowded_funding_extreme_pct f.funding_pct_60d
        || le f.funding_pct_60d (sub (of_nat 100) c.crowded_funding_extreme_pct) in
      funding_extreme && le c.crowded_oi_zscore_min (abs f.oi_zscore_60d)

  unfoldable pub is_post_liquidation : RegimeConfig W → Features W → Bool
  is_post_liquidation c f =
      if not f.force_order_spike
      then false
      else if lt (abs f.tfi_60s) c.post_liq_tfi_abs_min
      then false
      else f.force_order_decreasing

  unfoldable pub classify : RegimeConfig W → Features W → RegimeState
  unfolding is_post_liquidation is_crowded_leverage is_compression is_uptrend is_downtrend
  classify c f =
      if is_post_liquidation c f
      then RegimeState.post_liquidation
      else if is_crowded_leverage c f
      then RegimeState.crowded_leverage
      else if is_compression c f
      then RegimeState.compression
      else if is_uptrend c f
      then RegimeState.uptrend
      else if is_downtrend c f
      then RegimeState.downtrend
      else RegimeState.normal
