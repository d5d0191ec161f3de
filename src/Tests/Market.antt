-- ===== src/Tests/Market.antt =====
-- Examples for the regime, the context and the funding.
use btc_bot.Prelude.{
  ◌≡◌, refl, ◌↔◌, foldl, leb, ◌||◌, if◌then◌else◌, false, Option, none, some, [], ◌∷◌, arith, List,
}
use btc_bot.Prelude.Fixed.{ℤ, fixed_double, fixed-IsOrdered}
use btc_bot.Core.Models.{hours, long, RegimeState, SessionBucket, VolatilityBucket}
use btc_bot.Core.Regime.{RegimeConfig}
use btc_bot.Core.Context.{ContextConfig}
use btc_bot.Core.Context.Eligibility.{}
use btc_bot.Core.Funding.{RawSample, row, compute_funding_paid, multiplier}
use btc_bot.Core.Funding.Intervals.{due, compute_funding_paid_parts}
use btc_bot.Core.Regime
use btc_bot.Core.Regime.Rules.{IsUnwinding, IsCrowded, IsQuiet, IsRising, IsFalling, classify_iff}
use btc_bot.Tests.Samples.{whole, basis, features}

abbrev pub regime_config : RegimeConfig ℤ
regime_config = record {
  ema_trend_gap_pct = basis 25;
  compression_atr_norm_max = basis 55;
  crowded_funding_extreme_pct = whole 85;
  crowded_oi_zscore_min = basis 15_000;
  post_liq_tfi_abs_min = basis 2_000;
}

classify_iff_example :
    let c = regime_config in
    let f = features in
    ((Regime.classify c f ≡ RegimeState.post_liquidation) ↔ IsUnwinding c f)
    × ((Regime.classify c f ≡ RegimeState.crowded_leverage) ↔ ((¬ IsUnwinding c f) × IsCrowded c f))
    × ((Regime.classify c f ≡ RegimeState.compression)
        ↔ ((¬ IsUnwinding c f) × (¬ IsCrowded c f) × IsQuiet c f))
    × ((Regime.classify c f ≡ RegimeState.uptrend)
        ↔ ((¬ IsUnwinding c f) × (¬ IsCrowded c f) × IsRising c f))
    × ((Regime.classify c f ≡ RegimeState.downtrend)
        ↔ ((¬ IsUnwinding c f) × (¬ IsCrowded c f) × (¬ IsRising c f) × IsFalling c f))
    × ((Regime.classify c f ≡ RegimeState.normal) ↔ (
        (¬ IsUnwinding c f)
        × (¬ IsCrowded c f)
        × (¬ IsQuiet c f)
        × (¬ IsRising c f)
        × (¬ IsFalling c f)))
classify_iff_example = classify_iff regime_config features fixed-IsOrdered refl refl refl refl

abbrev whitelist : SessionBucket → Option (List VolatilityBucket)
whitelist SessionBucket.eu = some (VolatilityBucket.low ∷ VolatilityBucket.normal ∷ [])
whitelist _ = none

abbrev pub context_config : ContextConfig ℤ
context_config = record {
  atr_low_threshold = basis 20;
  atr_high_threshold = basis 40;
  session_volatility_whitelist = whitelist;
  neutral_mode = false;
  policy_version = "v1.0.0";
}

abbrev samples : List (RawSample ℤ)
samples =
    row (some (hours 24)) (some (basis 2))
    ∷ row none (some (basis 9))
    ∷ row (some (hours 8)) (some (basis 1))
    ∷ row (some (hours 16)) none
    ∷ []

compute_funding_paid_parts_example :
    let zero = whole 0 in
    let notional = whole 1_000 in
    let first = foldl fixed_double.add zero (due (hours 7) (hours 16) samples) in
    compute_funding_paid long notional (hours 7) (hours 30) samples ≡ (
      if fixed_double.le notional zero || leb (hours 30) (hours 7)
      then zero
      else fixed_double.mul
          (fixed_double.mul notional
            (foldl fixed_double.add first (due (hours 16) (hours 30) samples)))
          (multiplier long))
compute_funding_paid_parts_example =
    compute_funding_paid_parts long (whole 1_000) (hours 7) (hours 16) (hours 30) samples
      (omega arith) (omega arith)

abbrev at_8 : RawSample ℤ
at_8 = row (some (hours 8)) (some (basis 1))

abbrev at_16 : RawSample ℤ
at_16 = row (some (hours 16)) (some (basis 2))
