-- ===== src/Tests/Features.antt =====
-- Examples for `FeatureEngine`.
use btc_bot.Prelude.{ℕ, ◌≡◌, refl, arith, none, some, List, [], ◌∷◌}
use btc_bot.Prelude.Fixed.{ℤ, fixed_double}
use btc_bot.Core.Candles.{Candle}
use btc_bot.Core.Models.{hours}
use btc_bot.Core.Features.Config.{FeatureEngineConfig}
use btc_bot.Core.Features.Numbers.{mean}
use btc_bot.Core.Features.Levels.{cluster_levels, merge_clusters, detect_equal_levels}
use btc_bot.Core.Features.Parted.{IsClustered, detect_equal_levels-IsClustered}
use btc_bot.Core.Features.Sweep.{detect_sweep_reclaim}
use btc_bot.Core.Features.Found.{
  Reports, find, swept_below, swept_above, detect_sweep_reclaim-Reports,
}
use btc_bot.Core.Features.Snapshot.{MarketSnapshot}
use btc_bot.Core.Features.History.{reset}
use btc_bot.Core.Features.Engine.{compute}
use btc_bot.Core.Features.Tidy.{IsTidy, Reachable, Reachable-IsTidy}
use btc_bot.Core.Features.Divergence.{}
use btc_bot.Tests.Samples.{whole, basis}

abbrev touches : List (ℕ × ℤ)
touches = (0, whole 100) ∷ (3, whole 140) ∷ (6, whole 101) ∷ (12, whole 99) ∷ []

detect_equal_levels-IsClustered_example :
    IsClustered (whole 1) 3 5 touches (detect_equal_levels touches (whole 1) 3 5)
detect_equal_levels-IsClustered_example = detect_equal_levels-IsClustered (whole 1) touches 3 5

-- Three of the four touches make one level.
one_level : detect_equal_levels touches (whole 1) 3 5 ≡ whole 100 ∷ []
unfolding detect_equal_levels cluster_levels merge_clusters mean
one_level = refl

abbrev pub config : FeatureEngineConfig ℤ
config = record {
  atr_period = 14;
  ema_fast = 50;
  ema_slow = 200;
  equal_level_lookback = 50;
  equal_level_tol_atr = basis 2_500;
  sweep_buf_atr = basis 1_500;
  sweep_proximity_atr = basis 4_000;
  reclaim_buf_atr = basis 500;
  wick_min_atr = basis 4_000;
  level_min_age_bars = 5;
  min_hits = 3;
  funding_window_days = 60;
  oi_z_window_days = 60;
  oi_baseline_days = 60;
  force_order_history_points = 180;
  cvd_divergence_window_bars = 10;
  cvd_divergence_bars = 30;
  flow_coverage_ready = basis 9_000;
  flow_coverage_degraded = basis 7_000;
  funding_coverage_ready = basis 9_000;
  funding_coverage_degraded = basis 7_000;
}

abbrev calm : Candle ℤ
calm = record { opening = whole 101; high = whole 103; low = whole 100; close = whole 102 }

-- It dips below 100 and closes above.
abbrev dip : Candle ℤ
dip = record { opening = whole 101; high = whole 104; low = whole 94; close = whole 103 }

detect_sweep_reclaim-Reports_example :
    Reports config
      (whole 10)
      dip
      (detect_sweep_reclaim (calm ∷ dip ∷ []) (whole 100 ∷ []) (whole 104 ∷ []) (whole 10) config)
      (find (swept_below config (whole 10) dip) (whole 100 ∷ []))
      (find (swept_above config (whole 10) dip) (whole 104 ∷ []))
detect_sweep_reclaim-Reports_example =
    detect_sweep_reclaim-Reports config (whole 10) dip (calm ∷ dip ∷ []) (whole 100 ∷ [])
      (whole 104 ∷ []) (omega arith) refl refl

abbrev pub snapshot : MarketSnapshot ℤ
snapshot = record {
  timestamp = hours 10;
  price = whole 103;
  candles_15m = calm ∷ dip ∷ [];
  candles_4h = calm ∷ dip ∷ [];
  funding_history = record { funding_time = some (hours 8); funding_rate = some (basis 1) } ∷ [];
  open_interest = whole 5;
  aggtrades_bucket_60s = record { cvd = none; tfi = some (basis 2_000) };
  aggtrades_bucket_15m = record { cvd = some (whole 3); tfi = none };
  force_order_events_60s = record { price = whole 100; qty = whole 1 } ∷ [];
  etf_bias_daily = none;
  quality = [];
}

Reachable-IsTidy_example : IsTidy config (hours 10) ((compute config reset snapshot "v1" "h").1)
Reachable-IsTidy_example =
    Reachable-IsTidy config (hours 10) ((compute config reset snapshot "v1" "h").1)
      (Reachable.call (Reachable.start 0) snapshot (omega arith) "v1" "h")
