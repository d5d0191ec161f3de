-- ===== src/Backtest/Exits.antt =====
-- backtest/backtest_runner.py: how an open position of a replay is closed, in part or whole.
use btc_bot.Prelude.{
  true, not, Option, some, List, [], ◌∷◌, ◌++◌, ◌⊎◌, inl, inr, ◌-◌, if◌then◌else◌,
}
use btc_bot.Prelude.Double.{Double, nought, max, min}
use btc_bot.Core.Models.{Time, minutes, Direction, PositionStatus, Position, ExitReason}
use btc_bot.Core.Candles.{Candle}
use btc_bot.Core.Funding.{RawSample}
use btc_bot.Core.Risk.{RiskConfig, evaluate_exit, build_settlement_metrics}
use btc_bot.Execution.Paper.{OrderType}
use btc_bot.Backtest.Fill.{FillModel, FillResult, FillError}
use btc_bot.Backtest.Settling.{path_of, settle_record}
use btc_bot.Backtest.Positions.{
  PathCandle, OpenPositionRecord, ClosedTradeRecord, append_candle, close_side, accrue_funding,
  update_trailing_stop, given,
}

-- What a bar makes of an open position. One of which a partial exit leaves no size is in no list
-- afterwards.
pub data Fate (W : Type 0) : Type 0 where
  kept : OpenPositionRecord W → Fate W
  dropped : Fate W
  closed_with : ClosedTradeRecord W → Fate W

-- What a bar brings
pub record Bar (W : Type 0) : Type 0 where
  pub now : Time
  pub candle : PathCandle W

module _ {W : Type 0} ⦃d : Double W⦄ where
  open d use {add, sub, mul, le}

  -- What the position is after `qty` of it is closed
  abbrev pub reduced : Time → W → Position W → Position W
  reduced now qty p = record p {
    size = max (sub p.size qty) nought;
    status = PositionStatus.partial;
    stop_loss = p.entry_price;
    updated_at = now;
  }

  abbrev pub high_after : Direction → W → Option W → Option W
  high_after Direction.long latest_high old = some latest_high
  high_after Direction.short latest_high old = old

  abbrev pub low_after : Direction → W → Option W → Option W
  low_after Direction.long latest_low old = old
  low_after Direction.short latest_low old = some latest_low

  unfoldable pub reduce_record :
      Bar W → ExitReason → W → FillResult W → OpenPositionRecord W → OpenPositionRecord W
  unfolding build_settlement_metrics
  reduce_record bar reason qty fill r =
      let part = record r.position { size = qty } in
      let settlement = build_settlement_metrics part fill.filled_price reason (path_of r) in
      record r {
        realized_pnl_abs_gross = add r.realized_pnl_abs_gross settlement.pnl_abs;
        total_fees = add r.total_fees fill.fee_paid;
        closed_qty = add r.closed_qty qty;
        exit_notional_sum = add r.exit_notional_sum (mul settlement.exit_price qty);
        slippage_samples = r.slippage_samples ++ (fill.slippage_bps ∷ []);
        position = reduced bar.now qty r.position;
        partial_exit_done = true;
        trailing_stop = some r.position.entry_price;
        highest_high_since_partial =
            high_after r.position.direction bar.candle.1.high r.highest_high_since_partial;
        lowest_low_since_partial =
            low_after r.position.direction bar.candle.1.low r.lowest_low_since_partial;
      }

  module _ (c : RiskConfig W) (fills : FillModel W) (samples : List (RawSample W)) where
    abbrev pub left_over : OpenPositionRecord W → Fate W
    left_over r = if le r.position.size nought then Fate.dropped else Fate.kept r

    abbrev pub reduced_by :
        Bar W
        → ExitReason
        → W
        → OpenPositionRecord W
        → FillError W ⊎ FillResult W
        → FillError W ⊎ Fate W
    reduced_by bar reason qty r (inl e) = inl e
    reduced_by bar reason qty r (inr fill) = inr (left_over (reduce_record bar reason qty fill r))

    abbrev pub partial_qty : Option W → OpenPositionRecord W → W
    partial_qty share r =
        max (min (mul r.position.size (given share c.partial_exit_pct)) r.position.size) nought

    unfoldable pub exit_partly : Bar W → W → Option W → OpenPositionRecord W → FillError W ⊎ Fate W
    unfolding reduce_record
    exit_partly bar price share r =
        let qty = partial_qty share r in
        if le qty nought
        then inr (Fate.kept r)
        else reduced_by bar ExitReason.tp_partial qty r
            (fills.simulate price qty OrderType.market (close_side r.position.direction))

    abbrev pub settled_by :
        Time
        → ExitReason
        → OpenPositionRecord W
        → FillError W ⊎ FillResult W
        → FillError W ⊎ ClosedTradeRecord W
    settled_by now reason r (inl e) = inl e
    settled_by now reason r (inr fill) = inr (settle_record now reason fill r)

    unfoldable pub exit_whole :
        Time → W → ExitReason → OpenPositionRecord W → FillError W ⊎ ClosedTradeRecord W
    unfolding settle_record
    exit_whole now price reason r =
        settled_by now reason r
          (fills.simulate price r.position.size OrderType.market (close_side r.position.direction))

    abbrev pub closed_fate : FillError W ⊎ ClosedTradeRecord W → FillError W ⊎ Fate W
    closed_fate (inl e) = inl e
    closed_fate (inr t) = inr (Fate.closed_with t)

    -- `TP_PARTIAL` is a partial exit, and the other reasons close the position.
    abbrev pub exit_for :
        Bar W → W → Option W → ExitReason → OpenPositionRecord W → FillError W ⊎ Fate W
    exit_for bar price share ExitReason.tp_partial r = exit_partly bar price share r
    exit_for bar price share reason r = closed_fate (exit_whole bar.now price reason r)

    abbrev pub decided :
        Bar W
        → OpenPositionRecord W
        → Option W
        → Option ExitReason
        → Option W
        → FillError W ⊎ Fate W
    decided bar r (some price) (some reason) share = exit_for bar price share reason r
    decided bar r _ _ share = inr (Fate.kept r)

    -- The position before the decision: with its funding, its candle and its trailing stop
    unfoldable pub advance_record : Bar W → OpenPositionRecord W → OpenPositionRecord W
    unfolding accrue_funding append_candle update_trailing_stop
    advance_record bar r =
        let paid = accrue_funding fills samples bar.now r in
        let longer = record paid { candles_path = append_candle paid.candles_path bar.candle } in
        update_trailing_stop c.trailing_atr_mult bar.candle.1.high bar.candle.1.low longer

    -- A turn of the loop of `_close_positions_if_needed`
    unfoldable pub manage_record : Bar W → OpenPositionRecord W → FillError W ⊎ Fate W
    unfolding advance_record exit_partly exit_whole evaluate_exit
    manage_record bar record' =
        let r = advance_record bar record' in
        let candle = bar.candle.1 in
        let decision =
          evaluate_exit c r.position bar.now candle.high candle.low candle.close true
            r.partial_exit_done in
        if not decision.should_close
        then inr (Fate.kept r)
        else decided bar r decision.exit_price decision.reason decision.partial_pct

    -- The position with its funding, and with a candle at the last price
    unfoldable pub prolonged : Time → W → OpenPositionRecord W → OpenPositionRecord W
    unfolding accrue_funding append_candle
    prolonged now price r =
        let paid = accrue_funding fills samples now r in
        let candle : Candle W = record {
          opening = price;
          high = price;
          low = price;
          close = price;
        } in
        record paid {
          candles_path = append_candle paid.candles_path (some (now - minutes 15), candle);
        }

    -- A turn of the loop of `_force_close_remaining_positions`
    unfoldable pub force_close_record :
        Time → W → OpenPositionRecord W → FillError W ⊎ ClosedTradeRecord W
    unfolding prolonged exit_whole
    force_close_record now price r =
        exit_whole now price ExitReason.end_of_backtest (prolonged now price r)
