-- ===== src/Core/Features/Snapshot.antt =====
-- core/models.py: `MarketSnapshot`, the fields that `FeatureEngine` reads. A dictionary is a record
-- of the keys that are read, and a key that may be missing is an `Option`.
use btc_bot.Prelude.{String, Option, List}
use btc_bot.Core.Models.{Time, FeatureQuality}
use btc_bot.Core.Candles.{Candle}

-- A row of `funding_history`; a time that is missing or cannot be read is `none`.
pub record FundingRow (W : Type 0) : Type 0 where
  pub funding_time : Option Time
  pub funding_rate : Option W

-- `aggtrades_bucket_60s` and `aggtrades_bucket_15m`
pub record Bucket (W : Type 0) : Type 0 where
  pub cvd : Option W
  pub tfi : Option W

-- An event of `force_order_events_60s`: the engine counts events and does not look inside.
pub record ForceOrderEvent (W : Type 0) : Type 0 where
  pub price : W
  pub qty : W

pub record MarketSnapshot (W : Type 0) : Type 0 where
  pub timestamp : Time
  pub price : W
  pub candles_15m : List (Candle W)
  pub candles_4h : List (Candle W)
  pub funding_history : List (FundingRow W)
  pub open_interest : W
  pub aggtrades_bucket_60s : Bucket W
  pub aggtrades_bucket_15m : Bucket W
  pub force_order_events_60s : List (ForceOrderEvent W)
  pub etf_bias_daily : Option W
  pub quality : List (String × FeatureQuality W)
