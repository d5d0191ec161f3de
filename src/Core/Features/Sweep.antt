-- ===== src/Core/Features/Sweep.antt =====
-- core/feature_engine.py: `detect_sweep_reclaim`.
use btc_bot.Prelude.{
  Bool, true, false, ◌&&◌, ◌||◌, Option, none, some, List, [], ◌∷◌, length, ltb, if◌then◌else◌,
}
use btc_bot.Prelude.Double.{Double, nought, max, min}
use btc_bot.Prelude.Tails.{last}
use btc_bot.Core.Candles.{Candle}
use btc_bot.Core.Models.{SweepSide}
use btc_bot.Core.Features.Config.{FeatureEngineConfig}

-- the tuple that `detect_sweep_reclaim` returns
pub record SweepReport (W : Type 0) : Type 0 where
  pub sweep_detected : Bool
  pub reclaim_detected : Bool
  pub sweep_level : Option W
  pub sweep_depth_pct : Option W
  pub sweep_side : Option SweepSide
  pub close_vs_reclaim_buffer_atr : Option W
  pub wick_vs_min_atr : Option W
  pub sweep_vs_buffer_atr : Option W

abbrev pub or_else : {A : Type 0} → Option A → Option A → Option A
or_else none b = b
or_else (some a) b = some a

-- A loop that returns at the first element with a result.
abbrev pub first_some : {A B : Type 0} → (A → Option B) → List A → Option B
first_some f [] = none
first_some f (x ∷ xs) = or_else (f x) (first_some f xs)

module _ {W : Type 0} ⦃d : Double W⦄ where
  open d use {add, sub, mul, div, abs, lt, le, eq}

  abbrev pub no_sweep : SweepReport W
  no_sweep = record {
    sweep_detected = false;
    reclaim_detected = false;
    sweep_level = none;
    sweep_depth_pct = none;
    sweep_side = none;
    close_vs_reclaim_buffer_atr = none;
    wick_vs_min_atr = none;
    sweep_vs_buffer_atr = none;
  }

  abbrev depth : W → W → W
  depth distance level = if eq level nought then nought else div (abs distance) level

  -- one turn of the loop over `equal_lows`
  unfoldable pub sweep_low : FeatureEngineConfig W → W → Candle W → W → Option (SweepReport W)
  sweep_low c atr k level =
      let sweep_buffer = mul c.sweep_buf_atr atr in
      let reclaim_buffer = mul c.reclaim_buf_atr atr in
      let wick_min = mul c.wick_min_atr atr in
      let wick = sub (min k.opening k.close) k.low in
      if lt (mul c.sweep_proximity_atr atr) (abs (sub k.opening level))
      then none
      else if lt k.low (sub level sweep_buffer)
      then some (record {
        sweep_detected = true;
        reclaim_detected = lt (add level reclaim_buffer) k.close && le wick_min wick;
        sweep_level = some level;
        sweep_depth_pct = some (depth (sub level k.low) level);
        sweep_side = some SweepSide.low;
        close_vs_reclaim_buffer_atr = some (div (sub k.close (add level reclaim_buffer)) atr);
        wick_vs_min_atr = some (div (sub wick wick_min) atr);
        sweep_vs_buffer_atr = some (div (sub (sub level sweep_buffer) k.low) atr);
      })
      else none

  -- one turn of the loop over `equal_highs`
  unfoldable pub sweep_high : FeatureEngineConfig W → W → Candle W → W → Option (SweepReport W)
  sweep_high c atr k level =
      let sweep_buffer = mul c.sweep_buf_atr atr in
      let reclaim_buffer = mul c.reclaim_buf_atr atr in
      let wick_min = mul c.wick_min_atr atr in
      let wick = sub k.high (max k.opening k.close) in
      if lt (mul c.sweep_proximity_atr atr) (abs (sub k.opening level))
      then none
      else if lt (add level sweep_buffer) k.high
      then some (record {
        sweep_detected = true;
        reclaim_detected = lt k.close (sub level reclaim_buffer) && le wick_min wick;
        sweep_level = some level;
        sweep_depth_pct = some (depth (sub k.high level) level);
        sweep_side = some SweepSide.high;
        close_vs_reclaim_buffer_atr = some (div (sub (sub level reclaim_buffer) k.close) atr);
        wick_vs_min_atr = some (div (sub wick wick_min) atr);
        sweep_vs_buffer_atr = some (div (sub k.high (add level sweep_buffer)) atr);
      })
      else none

  abbrev pub report : Option (SweepReport W) → SweepReport W
  report none = no_sweep
  report (some r) = r

  abbrev search_latest :
      FeatureEngineConfig W → W → Option (Candle W) → List W → List W → SweepReport W
  search_latest c atr none lows highs = no_sweep
  search_latest c atr (some k) lows highs =
      report (or_else (first_some (sweep_low c atr k) lows) (first_some (sweep_high c atr k) highs))

  unfoldable pub detect_sweep_reclaim :
      List (Candle W) → List W → List W → W → FeatureEngineConfig W → SweepReport W
  unfolding sweep_low sweep_high
  detect_sweep_reclaim candles equal_lows equal_highs atr c =
      if ltb (length candles) 2 || le atr nought
      then no_sweep
      else search_latest c atr (last candles) equal_lows equal_highs
