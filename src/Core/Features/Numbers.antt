-- ===== src/Core/Features/Numbers.antt =====
-- core/feature_engine.py: the mean, the deviation, ranks and averages of lists of floats. `sum` adds
-- from the left, and a square is a product.
use btc_bot.Prelude.{
  ℕ, ◌+◌, List, [], ◌∷◌, none, some, foldl, length, leb, ltb, if◌then◌else◌, keep, map,
}
use btc_bot.Prelude.Double.{Double, nought, max}
use btc_bot.Prelude.Tails.{last, last_n}
use btc_bot.Core.Candles.{Candle}

module _ {W : Type 0} ⦃d : Double W⦄ where
  open d use {add, sub, mul, div, sqrt, abs, of_nat, lit, le, eq}

  unfoldable pub sum : List W → W
  sum = foldl add nought

  unfoldable pub mean : List W → W
  unfolding sum
  mean [] = nought
  mean (v ∷ vs) = div (sum (v ∷ vs)) (of_nat (length (v ∷ vs)))

  unfoldable pub std : List W → W
  unfolding sum mean
  std vs =
      let avg = mean vs in
      if ltb (length vs) 2
      then nought
      else sqrt (div (sum (map (λ v. mul (sub v avg) (sub v avg)) vs)) (of_nat (length vs)))

  unfoldable pub percentile_rank : List W → W → W
  percentile_rank [] value = of_nat 50
  percentile_rank (v ∷ vs) value =
      let lower_or_equal = length (keep (λ item. le item value) (v ∷ vs)) in
      mul (div (of_nat lower_or_equal) (of_nat (length (v ∷ vs)))) (of_nat 100)

  unfoldable pub zscore : List W → W → W
  unfolding mean std
  zscore values value =
      let sd = std values in
      if ltb (length values) 2
      then nought
      else if eq sd nought
      then nought
      else div (sub value (mean values)) sd

  abbrev ema_step : W → W → W → W
  ema_step multiplier ema value = add (mul (sub value ema) multiplier) ema

  abbrev last_or : W → List W → W
  last_or v vs = elim (last vs) [ none ↦ v | some w ↦ w ]

  unfoldable pub compute_ema : List W → ℕ → W
  compute_ema [] period = nought
  compute_ema (v ∷ vs) period =
      if leb period 1
      then last_or v vs
      else foldl (ema_step (div (of_nat 2) (of_nat (period + 1)))) v vs

  abbrev true_range : W → Candle W → W
  true_range prev_close c =
      max (max (sub c.high c.low) (abs (sub c.high prev_close))) (abs (sub c.low prev_close))

  abbrev true_ranges : W → List (Candle W) → List W
  true_ranges prev_close [] = []
  true_ranges prev_close (c ∷ cs) = true_range prev_close c ∷ true_ranges c.close cs

  unfoldable pub compute_atr : List (Candle W) → ℕ → W
  unfolding mean
  compute_atr [] period = nought
  compute_atr (c ∷ []) period = nought
  compute_atr (c ∷ c' ∷ cs) period =
      let ranges = true_ranges c.close (c' ∷ cs) in
      mean (if leb period (length ranges) then last_n period ranges else ranges)
