-- ===== src/Tests/Replay.antt =====
-- Examples for the replay: a position of which one bar closes a part, and whose stop the next moves.
use btc_bot.Prelude.{
  length, ◌≡◌, ◌+◌, true, none, map, refl, ◌⊎◌, inl, inr, List, [], ◌∷◌, some, arith,
}
use btc_bot.Prelude.Fixed.{ℤ, fixed_double, fixed-IsOrdered}
use btc_bot.Core.Models.{hours, minutes}
use btc_bot.Core.Signal.Diagnose.{
  generate_from, diagnose, judge, is_shallow, judge_sweep, weigh, candidate_of,
}
use btc_bot.Core.Signal.Score.{
  is_uptrend_pullback_context, infer_direction, is_direction_allowed, confluence_score,
  is_regime_special_supportive, build_levels,
}
use btc_bot.Core.Governance.{
  is_within_session, is_in_no_trade_window, cooldown_left, check_duplicate, drop_stale,
}
use btc_bot.Core.Risk.{position_size}
use btc_bot.Core.Context.{classify_session, classify_volatility}
use btc_bot.Core.Candles.{Candle}
use btc_bot.Orchestrator.World.{Settings}
use btc_bot.Core.Features.Snapshot.{MarketSnapshot}
use btc_bot.Execution.Paper.{OrderType}
use btc_bot.Backtest.Fill.{FillModel, FillError, simple_fill_model}
use btc_bot.Backtest.Positions.{OpenPositionRecord}
use btc_bot.Backtest.Runner.{ReplaySnapshot, Ids, BacktestConfig, Replay, bar_of, open_record}
use btc_bot.Backtest.Run.{with_opened, start_replay, replay, finish_replay, result_of, run}
use btc_bot.Backtest.Sound.{IsSoundReplay}
use btc_bot.Backtest.Replayed.{replay_keeps_sound}
use btc_bot.Backtest.Ended.{run_closes_all}
use btc_bot.Tests.Samples.{whole, basis, candidate, signal, candles}
use btc_bot.Tests.Features.{snapshot}
use btc_bot.Tests.Orchestrator.{settings}

abbrev ids : Ids
ids = record {
  signal_id = λ at n. "sig-bt";
  position_id = λ n. "pos-bt";
  trade_id = λ n. "trd-bt";
  drawn = "sig";
}

abbrev config : BacktestConfig ℤ
config = record {
  initial_equity = whole 10_000;
  position_symbol = "BTCUSDT";
  entry_order_type = OrderType.limit;
}

abbrev fills : FillModel ℤ
fills = simple_fill_model (record {
  slippage_bps_limit = whole 1;
  slippage_bps_market = whole 3;
  fee_rate_maker = basis 2;
  fee_rate_taker = basis 4;
})

abbrev opened : OpenPositionRecord ℤ
opened =
    open_record settings fills [] ids config (hours 10) candidate signal
      (record { allowed = true; size = basis 5_000; leverage = 5; reason = none }) 1 1
      (record { filled_price = whole 60_000; slippage_bps = whole 1; fee_paid = whole 6 })

abbrev started : Replay ℤ
started =
    with_opened settings fills [] ids config (hours 10) opened
      (start_replay settings fills [] ids config)

abbrev bar : MarketSnapshot ℤ
bar = record snapshot {
  timestamp = hours 10 + minutes 15;
  price = whole 60_350;
  candles_15m = candles;
}

abbrev bars : List (ReplaySnapshot ℤ)
bars =
    record { snapshot = bar; last_open_time = some (hours 10) }
    ∷ record {
      snapshot = record bar { timestamp = hours 10 + minutes 30 };
      last_open_time = some (hours 10 + minutes 15);
    }
    ∷ []

abbrev value : FillError ℤ ⊎ Replay ℤ → Replay ℤ
value (inl e) = started
value (inr w) = w

abbrev ended : Replay ℤ
ended = value (replay settings fills [] ids config bars started)

started-IsSoundReplay : IsSoundReplay started
unfolding open_record
started-IsSoundReplay = (
  record {
    guarded = (inl (refl, refl, refl, refl, refl), tt);
    closed = tt;
    same_events = refl;
    counted = omega arith;
  },
  refl,
  refl,
)

closed_by_trail : map (λ t. t.trade.exit_reason) ended.closed_records ≡ (some "TP_TRAIL" ∷ [])
unfolding replay open_record bar_of simple_fill_model generate_from diagnose judge
closed_by_trail = refl

replay_keeps_sound_example : IsSoundReplay ended
unfolding replay open_record bar_of simple_fill_model generate_from diagnose judge
replay_keeps_sound_example =
    replay_keeps_sound fixed-IsOrdered settings fills [] ids config bars started ended
      started-IsSoundReplay refl

abbrev easy : Settings ℤ
easy = record settings {
  features = record settings.features { min_hits = 1; level_min_age_bars = 0; atr_period = 2 };
  signal = record settings.signal { confluence_min = whole 0 };
  risk = record settings.risk { min_rr = whole 0 };
  context = record settings.context { neutral_mode = true };
}

abbrev calm : Candle ℤ
calm = record { opening = whole 101; high = whole 103; low = whole 100; close = whole 102 }

abbrev dip : Candle ℤ
dip = record { opening = whole 101; high = whole 104; low = whole 98; close = whole 103 }

abbrev dipped : MarketSnapshot ℤ
dipped = record snapshot { candles_15m = calm ∷ calm ∷ calm ∷ calm ∷ dip ∷ [] }

abbrev one_snapshot : List (ReplaySnapshot ℤ)
one_snapshot = record { snapshot = dipped; last_open_time = none } ∷ []

abbrev traded : Replay ℤ
traded =
    value (replay easy fills [] ids config one_snapshot (start_replay easy fills [] ids config))

abbrev finished : Replay ℤ
finished = value (finish_replay easy fills [] ids config traded)

-- The bar opens a trade, and the end of the replay closes it.
opens_and_closes :
    (length traded.open_positions ≡ 1)
    × (map (λ t. t.trade.exit_reason) finished.closed_records ≡ some "END_OF_BACKTEST" ∷ [])
unfolding replay bar_of simple_fill_model generate_from diagnose judge is_uptrend_pullback_context
    is_shallow judge_sweep infer_direction weigh is_direction_allowed confluence_score
    is_regime_special_supportive classify_session classify_volatility is_within_session candidate_of
    is_in_no_trade_window cooldown_left check_duplicate drop_stale build_levels position_size
    finish_replay
opens_and_closes = (refl, refl)

run_closes_all_example :
    (run easy fills [] ids config one_snapshot ≡ inr (result_of easy fills [] ids config finished))
    × (finished.open_positions ≡ [])
    × IsSoundReplay finished
unfolding replay bar_of simple_fill_model generate_from diagnose judge is_uptrend_pullback_context
    is_shallow judge_sweep infer_direction weigh is_direction_allowed confluence_score
    is_regime_special_supportive classify_session classify_volatility is_within_session candidate_of
    is_in_no_trade_window cooldown_left check_duplicate drop_stale build_levels position_size
    finish_replay
run_closes_all_example =
    run_closes_all fixed-IsOrdered easy fills [] ids config one_snapshot traded finished refl refl
