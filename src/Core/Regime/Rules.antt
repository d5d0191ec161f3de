-- ===== src/Core/Regime/Rules.antt =====
-- `RegimeEngine.classify`: the condition of each regime.
use btc_bot.Prelude.{◌≡◌, true, false, ◌↔◌, ◌⊎◌, arith}
use btc_bot.Prelude.Double.{Double, IsOrdered, IsNumber, ◌≼◌, ◌≺◌, nought}
use btc_bot.Core.Models.{Features, RegimeState}
use btc_bot.Core.Regime.{RegimeConfig, classify}

module _ {W : Type 0} ⦃d : Double W⦄ (c : RegimeConfig W) (f : Features W) where
  open d use {abs, sub, div, eq, of_nat}

  -- A spike of forced orders that is fading, with a flow imbalance that is not below the minimum.
  abbrev pub IsUnwinding : Type 0
  IsUnwinding =
      (f.force_order_spike ≡ true)
      × (f.force_order_decreasing ≡ true)
      × (c.post_liq_tfi_abs_min ≼ abs f.tfi_60s)

  -- Funding at either end of its range, and an extreme open interest.
  abbrev pub IsCrowded : Type 0
  IsCrowded =
      ((c.crowded_funding_extreme_pct ≼ f.funding_pct_60d)
        ⊎ (f.funding_pct_60d ≼ sub (of_nat 100) c.crowded_funding_extreme_pct))
      × (c.crowded_oi_zscore_min ≼ abs f.oi_zscore_60d)

  abbrev pub IsQuiet : Type 0
  IsQuiet = (nought ≺ f.atr_4h_norm) × (f.atr_4h_norm ≼ c.compression_atr_norm_max)

  -- The fast average is away from the slow one, up or down, and the market is not compressed.
  abbrev pub IsRising : Type 0
  IsRising =
      (eq f.ema200_4h nought ≡ false)
      × (c.ema_trend_gap_pct ≼ div (sub f.ema50_4h f.ema200_4h) f.ema200_4h)
      × (c.compression_atr_norm_max ≺ f.atr_4h_norm)

  abbrev pub IsFalling : Type 0
  IsFalling =
      (eq f.ema200_4h nought ≡ false)
      × (c.ema_trend_gap_pct ≼ div (sub f.ema200_4h f.ema50_4h) f.ema200_4h)
      × (c.compression_atr_norm_max ≺ f.atr_4h_norm)

  -- When each regime is reported: an unwinding first, then crowding, then compression and the
  -- trends, which cannot hold together (so their order in the code does not matter), the uptrend
  -- before the downtrend, and the normal regime if nothing holds. The flow imbalance, its minimum
  -- and the two volatilities must be numbers.
  pub classify_iff :
      (laws : IsOrdered W)
      → IsNumber (abs f.tfi_60s)
      → IsNumber c.post_liq_tfi_abs_min
      → IsNumber f.atr_4h_norm
      → IsNumber c.compression_atr_norm_max
      → ((classify c f ≡ RegimeState.post_liquidation) ↔ IsUnwinding)
        × ((classify c f ≡ RegimeState.crowded_leverage) ↔ ((¬ IsUnwinding) × IsCrowded))
        × ((classify c f ≡ RegimeState.compression) ↔ ((¬ IsUnwinding) × (¬ IsCrowded) × IsQuiet))
        × ((classify c f ≡ RegimeState.uptrend) ↔ ((¬ IsUnwinding) × (¬ IsCrowded) × IsRising))
        × ((classify c f ≡ RegimeState.downtrend)
            ↔ ((¬ IsUnwinding) × (¬ IsCrowded) × (¬ IsRising) × IsFalling))
        × ((classify c f ≡ RegimeState.normal)
            ↔ ((¬ IsUnwinding) × (¬ IsCrowded) × (¬ IsQuiet) × (¬ IsRising) × (¬ IsFalling)))
  unfolding classify
  classify_iff laws nt nm na nc =
      let tfi = laws.lt-eq-not-le (abs f.tfi_60s) c.post_liq_tfi_abs_min nt nm in
      let atr = laws.lt-eq-not-le c.compression_atr_norm_max f.atr_4h_norm nc na in
      (
        ground (arith, tfi, atr),
        ground (arith, tfi, atr),
        ground (arith, tfi, atr),
        ground (arith, tfi, atr),
        ground (arith, tfi, atr),
        ground (arith, tfi, atr),
      )
