-- ===== src/Core/Candles.antt =====
-- One candle: the numbers that the program reads from the dictionaries of a kline list.
use btc_bot.Prelude.{List, foldl}
use btc_bot.Prelude.Double.{Double, max, min}

pub record Candle (W : Type 0) : Type 0 where
  pub opening : W
  pub high : W
  pub low : W
  pub close : W

-- `min(xs)` and `max(xs)` of a list with the first element `x`
module _ {W : Type 0} ⦃d : Double W⦄ where
  abbrev pub min_of : W → List W → W
  min_of = foldl min

  abbrev pub max_of : W → List W → W
  max_of = foldl max
