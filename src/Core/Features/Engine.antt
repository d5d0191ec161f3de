-- ===== src/Core/Features/Engine.antt =====
-- core/feature_engine.py: `FeatureEngine.compute`, which returns the features and the histories
-- after the call.
use btc_bot.Prelude.{
  ℕ, suc, String, Bool, true, false, List, [], ◌∷◌, ◌++◌, map, length, if◌then◌else◌,
}
use btc_bot.Prelude.Double.{Double, nought}
use btc_bot.Prelude.Tails.{bounded, last_n, last}
use btc_bot.Core.Models.{Time, Features, FeatureQuality, QualityStatus, quality_of}
use btc_bot.Core.Features.Config.{FeatureEngineConfig}
use btc_bot.Core.Features.Numbers.{mean, percentile_rank, zscore, compute_ema, compute_atr}
use btc_bot.Core.Features.Levels.{detect_equal_levels}
use btc_bot.Core.Features.Sweep.{detect_sweep_reclaim}
use btc_bot.Core.Features.Snapshot.{MarketSnapshot}
use btc_bot.Core.Features.History.{
  Histories, days, upsert, expire, or_nought, compute_cvd_divergence, is_force_order_spike,
  is_force_order_decreasing,
}
use btc_bot.Core.Features.Quality.{put, set_default, funding_window_rates, oi_quality, cvd_quality}

-- `enumerate`, from an index
abbrev pub enumerate : {A : Type 0} → ℕ → List A → List (ℕ × A)
enumerate i [] = []
enumerate i (x ∷ xs) = (i, x) ∷ enumerate (suc i) xs

abbrev pub is_ready : QualityStatus → Bool
is_ready QualityStatus.ready = true
is_ready _ = false

module _ {W : Type 0} ⦃d : Double W⦄ where
  open d use {sub, mul, div, lt, eq, of_nat}

  -- the histories after each of the three writes of `compute`
  abbrev pub record_oi : FeatureEngineConfig W → Time → W → Histories W → Histories W
  record_oi c now oi_value h = record {
    oi_history = expire (days c.oi_z_window_days) now (upsert (now, oi_value) h.oi_history);
    force_order_rate_history = h.force_order_rate_history;
    cvd_price_history = h.cvd_price_history;
  }

  abbrev pub record_cvd : Time → W → W → Histories W → Histories W
  record_cvd now price cvd h = record {
    oi_history = h.oi_history;
    force_order_rate_history = h.force_order_rate_history;
    cvd_price_history = bounded 500 (upsert (now, (price, cvd)) h.cvd_price_history);
  }

  abbrev pub record_rate : FeatureEngineConfig W → W → Histories W → Histories W
  record_rate c rate h = record {
    oi_history = h.oi_history;
    force_order_rate_history =
        bounded c.force_order_history_points (h.force_order_rate_history ++ (rate ∷ []));
    cvd_price_history = h.cvd_price_history;
  }

  abbrev previous : W → List W → W
  previous oi_value (a ∷ b ∷ []) = a
  previous oi_value _ = oi_value

  -- the tuple of `_compute_oi_stats`, and the histories after the call
  unfoldable pub compute_oi_stats :
      FeatureEngineConfig W → W → Time → Histories W → (W × W × W × FeatureQuality W) × Histories W
  unfolding upsert expire zscore oi_quality
  compute_oi_stats c oi_value now h =
      let h' = record_oi c now oi_value h in
      let values = map (λ s. s.1) h'.oi_history in
      let prev = previous oi_value (last_n 2 values) in
      let delta_pct = if eq prev nought then nought else div (sub oi_value prev) prev in
      ((oi_value, zscore values oi_value, delta_pct, oi_quality c h'), h')

  abbrev pub force_order_rate : MarketSnapshot W → W
  force_order_rate s = div (of_nat (length s.force_order_events_60s)) (of_nat 60)

  -- the histories after `compute`
  unfoldable pub histories_after :
      FeatureEngineConfig W → Histories W → MarketSnapshot W → Histories W
  unfolding compute_oi_stats
  histories_after c h s =
      let h₁ = (compute_oi_stats c s.open_interest s.timestamp h).1 in
      let h₂ = record_cvd s.timestamp s.price (or_nought s.aggtrades_bucket_15m.cvd) h₁ in
      record_rate c (force_order_rate s) h₂

  -- the marks that a snapshot without quality gets
  abbrev legacy : FeatureQuality W
  legacy = quality_of QualityStatus.ready "legacy_snapshot_no_quality" [] "snapshot"

  unfoldable pub compute :
      FeatureEngineConfig W
      → Histories W
      → MarketSnapshot W
      → String
      → String
      → Features W × Histories W
  unfolding histories_after compute_oi_stats funding_window_rates cvd_quality compute_atr
      compute_ema detect_equal_levels detect_sweep_reclaim mean percentile_rank
      compute_cvd_divergence is_force_order_spike is_force_order_decreasing put set_default
  compute c h s schema_version config_hash =
      let now = s.timestamp in
      let atr_15m = compute_atr s.candles_15m c.atr_period in
      let atr_4h = compute_atr s.candles_4h c.atr_period in
      let closes_4h = map (λ k. k.close) s.candles_4h in
      let recent_15m = enumerate 0 (last_n c.equal_level_lookback s.candles_15m) in
      let tolerance = if lt nought atr_15m then mul atr_15m c.equal_level_tol_atr else nought in
      let equal_lows =
        detect_equal_levels (map (λ k. (k.0, k.1.low)) recent_15m) tolerance c.min_hits
          c.level_min_age_bars in
      let equal_highs =
        detect_equal_levels (map (λ k. (k.0, k.1.high)) recent_15m) tolerance c.min_hits
          c.level_min_age_bars in
      let sweep = detect_sweep_reclaim s.candles_15m equal_lows equal_highs atr_15m c in
      let (rates, funding_quality) = funding_window_rates c s.funding_history now in
      let funding_8h = or_nought (last rates) in
      let (oi, h₁) = compute_oi_stats c s.open_interest now h in
      let cvd_15m = or_nought s.aggtrades_bucket_15m.cvd in
      let h₂ = record_cvd now s.price cvd_15m h₁ in
      let mark = cvd_quality c h₂ in
      let divergence =
        if is_ready mark.status then compute_cvd_divergence c h₂ else (false, false) in
      let rate = force_order_rate s in
      let h₃ = record_rate c rate h₂ in
      let quality = put "cvd_divergence" mark (
        put "oi_baseline" oi.3 (
          put "funding_window" funding_quality
            (set_default "flow_15m" legacy (set_default "flow_60s" legacy s.quality)))) in
      (
        record {
          schema_version = schema_version;
          config_hash = config_hash;
          timestamp = now;
          atr_15m = atr_15m;
          atr_4h = atr_4h;
          atr_4h_norm = if eq s.price nought then nought else div atr_4h s.price;
          ema50_4h = compute_ema closes_4h c.ema_fast;
          ema200_4h = compute_ema closes_4h c.ema_slow;
          equal_lows = equal_lows;
          equal_highs = equal_highs;
          sweep_detected = sweep.sweep_detected;
          reclaim_detected = sweep.reclaim_detected;
          sweep_level = sweep.sweep_level;
          sweep_depth_pct = sweep.sweep_depth_pct;
          sweep_side = sweep.sweep_side;
          close_vs_reclaim_buffer_atr = sweep.close_vs_reclaim_buffer_atr;
          wick_vs_min_atr = sweep.wick_vs_min_atr;
          sweep_vs_buffer_atr = sweep.sweep_vs_buffer_atr;
          funding_8h = funding_8h;
          funding_sma3 = mean (last_n 3 rates);
          funding_sma9 = mean (last_n 9 rates);
          funding_pct_60d = percentile_rank rates funding_8h;
          oi_value = oi.0;
          oi_zscore_60d = oi.1;
          oi_delta_pct = oi.2;
          cvd_15m = cvd_15m;
          cvd_bullish_divergence = divergence.0;
          cvd_bearish_divergence = divergence.1;
          tfi_60s = or_nought s.aggtrades_bucket_60s.tfi;
          force_order_rate_60s = rate;
          force_order_spike = is_force_order_spike h₃ rate;
          force_order_decreasing = is_force_order_decreasing h₃;
          passive_etf_bias_5d = s.etf_bias_daily;
          quality = quality;
        },
        h₃,
      )
