-- ===== src/Core/Signal/Score.antt =====
-- core/signal_engine.py: the inferred direction, the confluence score and the price levels.
use btc_bot.Prelude.{
  Bool, true, false, not, ◌&&◌, Option, none, some, List, [], ◌∷◌, ◌++◌, foldl, any, if◌then◌else◌,
}
use btc_bot.Prelude.Double.{Double, max, nought}
use btc_bot.Core.Models.{Direction, RegimeState, SweepSide, Features, SignalReason, SignalBlock}
use btc_bot.Core.Signal.Config.{SignalConfig}

abbrev pub is_low : Option SweepSide → Bool
is_low (some SweepSide.low) = true
is_low _ = false

abbrev pub is_high : Option SweepSide → Bool
is_high (some SweepSide.high) = true
is_high _ = false

abbrev pub is_long : Direction → Bool
is_long Direction.long = true
is_long Direction.short = false

abbrev pub is_uptrend : RegimeState → Bool
is_uptrend RegimeState.uptrend = true
is_uptrend _ = false

abbrev pub same_direction : Direction → Direction → Bool
same_direction Direction.long Direction.long = true
same_direction Direction.short Direction.short = true
same_direction _ _ = false

-- `_is_regime_special_supportive`
unfoldable pub is_regime_special_supportive : Direction → RegimeState → Bool
is_regime_special_supportive Direction.short RegimeState.downtrend = true
is_regime_special_supportive Direction.short RegimeState.crowded_leverage = true
is_regime_special_supportive Direction.short _ = false
is_regime_special_supportive Direction.long RegimeState.post_liquidation = true
is_regime_special_supportive Direction.long _ = false

pub record PriceLevels (W : Type 0) : Type 0 where
  pub entry : W
  pub invalidation : W
  pub tp1 : W
  pub tp2 : W

-- One `if` of `_confluence_score`: the test, the weight, and the reason.
abbrev pub Test : Type 0 → Type 0
Test W = Bool × W × SignalReason

module _ {W : Type 0} ⦃d : Double W⦄ where
  open d use {abs, neg, add, sub, mul, div, le, lt, eq, lit, of_nat}

  -- `x or 0.0`
  abbrev pub or_nought : Option W → W
  or_nought none = nought
  or_nought (some x) = x

  unfoldable pub is_direction_allowed : SignalConfig W → Direction → RegimeState → Bool
  is_direction_allowed c direction regime = elim (c.regime_direction_whitelist regime) [
    | none ↦ false
    | some allowed ↦ any (same_direction direction) allowed
  ]

  unfoldable pub ema_gap_pct : Features W → W
  ema_gap_pct f =
      if eq f.ema200_4h nought then nought else div (sub f.ema50_4h f.ema200_4h) f.ema200_4h

  unfoldable pub is_uptrend_pullback_context : SignalConfig W → Features W → RegimeState → Bool
  is_uptrend_pullback_context c f regime =
      c.allow_uptrend_pullback && is_uptrend regime && not f.reclaim_detected && is_low f.sweep_side

  -- The direction, or the reason that blocks it.
  unfoldable pub infer_uptrend_continuation :
      SignalConfig W → Features W → Option Direction × Option SignalBlock
  unfolding ema_gap_pct
  infer_uptrend_continuation c f =
      if not (is_high f.sweep_side)
      then (none, some SignalBlock.uptrend_continuation_weak)
      else if lt c.ema_trend_gap_pct (ema_gap_pct f) && lt c.direction_tfi_threshold f.tfi_60s
      then (some Direction.long, none)
      else (none, some SignalBlock.uptrend_continuation_weak)

  unfoldable pub infer_uptrend_pullback :
      SignalConfig W → Features W → Option Direction × Option SignalBlock
  infer_uptrend_pullback c f =
      let tfi_bullish = lt c.uptrend_pullback_tfi_threshold f.tfi_60s in
      let ema_aligned = lt f.ema200_4h f.ema50_4h in
      let depth_ok = lt c.uptrend_pullback_min_sweep_depth_pct (or_nought f.sweep_depth_pct) in
      if is_low f.sweep_side && tfi_bullish && ema_aligned && depth_ok
      then (some Direction.long, none)
      else (none, some SignalBlock.uptrend_pullback_weak)

  -- before the test of the side of the sweep
  abbrev inferred : SignalConfig W → Features W → Option Direction
  inferred c f =
      if f.cvd_bullish_divergence && not f.cvd_bearish_divergence
      then some Direction.long
      else if f.cvd_bearish_divergence && not f.cvd_bullish_divergence
      then some Direction.short
      else if lt c.direction_tfi_threshold f.tfi_60s
      then some Direction.long
      else if lt f.tfi_60s c.direction_tfi_threshold_inverse
      then some Direction.short
      else none

  unfoldable pub infer_direction : SignalConfig W → Features W → Option Direction
  infer_direction c f = elim (inferred c f) [
    | some Direction.long ↦ if not (is_low f.sweep_side) then none else some Direction.long
    | some Direction.short ↦ if not (is_high f.sweep_side) then none else some Direction.short
    | none ↦ none
  ]

  abbrev pub tests : SignalConfig W → Features W → RegimeState → Direction → List (Test W)
  tests c f regime direction =
      let long = is_long direction in
      (f.sweep_detected, c.weight_sweep_detected, SignalReason.liquidity_sweep_detected)
      ∷ (f.reclaim_detected, c.weight_reclaim_confirmed, SignalReason.reclaim_confirmed)
      ∷ (
        long && f.cvd_bullish_divergence,
        c.weight_cvd_divergence,
        SignalReason.cvd_bullish_divergence,
      )
      ∷ (
        not long && f.cvd_bearish_divergence,
        c.weight_cvd_divergence,
        SignalReason.cvd_bearish_divergence,
      )
      ∷ (
        long && le c.tfi_impulse_threshold f.tfi_60s,
        c.weight_tfi_impulse,
        SignalReason.tfi_impulse,
      )
      ∷ (
        not long && le f.tfi_60s (neg c.tfi_impulse_threshold),
        c.weight_tfi_impulse,
        SignalReason.tfi_impulse,
      )
      ∷ (f.force_order_spike, c.weight_force_order_spike, SignalReason.force_order_spike)
      ∷ (
        is_regime_special_supportive direction regime,
        c.weight_regime_special,
        SignalReason.regime_special,
      )
      ∷ (
        long && le f.ema200_4h f.ema50_4h,
        c.weight_ema_trend_alignment,
        SignalReason.ema_trend_alignment,
      )
      ∷ (
        not long && le f.ema50_4h f.ema200_4h,
        c.weight_ema_trend_alignment,
        SignalReason.ema_trend_alignment,
      )
      ∷ (
        long && le f.funding_8h nought,
        c.weight_funding_supportive,
        SignalReason.funding_supportive,
      )
      ∷ (
        not long && le nought f.funding_8h,
        c.weight_funding_supportive,
        SignalReason.funding_supportive,
      )
      ∷ []

  abbrev pub apply_test : W × List SignalReason → Test W → W × List SignalReason
  apply_test (score, reasons) (passed, weight, reason) =
      if passed then (add score weight, reasons ++ (reason ∷ [])) else (score, reasons)

  unfoldable pub confluence_score :
      SignalConfig W → Features W → RegimeState → Direction → W × List SignalReason
  confluence_score c f regime direction = foldl apply_test (nought, []) (tests c f regime direction)

  unfoldable pub build_levels : SignalConfig W → Features W → Direction → PriceLevels W
  build_levels c f direction =
      let atr = max f.atr_15m (lit 1 8) in
      let level = or_nought f.sweep_level in
      let base = if eq level nought then max f.ema50_4h (of_nat 1) else level in
      let min_stop_distance_pct = max c.min_stop_distance_pct nought in
      elim direction [
        | Direction.long ↦
            let entry = add base (mul atr c.entry_offset_atr) in
            let raw_invalidation = sub base (mul atr c.invalidation_offset_atr) in
            let min_stop_distance = mul (abs entry) min_stop_distance_pct in
            let distance = max (abs (sub entry raw_invalidation)) min_stop_distance in
            record {
              entry = entry;
              invalidation = sub entry distance;
              tp1 = add entry (mul atr c.tp1_atr_mult);
              tp2 = add entry (mul atr c.tp2_atr_mult);
            }
        | Direction.short ↦
            let entry = sub base (mul atr c.entry_offset_atr) in
            let raw_invalidation = add base (mul atr c.invalidation_offset_atr) in
            let min_stop_distance = mul (abs entry) min_stop_distance_pct in
            let distance = max (abs (sub entry raw_invalidation)) min_stop_distance in
            record {
              entry = entry;
              invalidation = add entry distance;
              tp1 = sub entry (mul atr c.tp1_atr_mult);
              tp2 = sub entry (mul atr c.tp2_atr_mult);
            }
      ]
