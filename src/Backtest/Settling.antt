-- ===== src/Backtest/Settling.antt =====
-- backtest/backtest_runner.py: the trade of a position that is closed whole.
use Prim.Native.Nat.{max as max_nat}
use btc_bot.Prelude.{String, some, List, [], ◌∷◌, ◌++◌, map, foldl, length}
use btc_bot.Prelude.Double.{Double, nought, max}
use btc_bot.Core.Models.{Time, Direction, PositionStatus, RegimeState, Position, ExitReason}
use btc_bot.Core.Candles.{Candle}
use btc_bot.Core.Risk.{build_settlement_metrics}
use btc_bot.Backtest.Performance.{TradeLog}
use btc_bot.Backtest.Fill.{FillResult}
use btc_bot.Backtest.Positions.{OpenPositionRecord, ClosedTradeRecord}

abbrev pub direction_text : Direction → String
direction_text Direction.long = "LONG"
direction_text Direction.short = "SHORT"

-- `RegimeState.value`
abbrev pub regime_text : RegimeState → String
regime_text RegimeState.normal = "normal"
regime_text RegimeState.uptrend = "uptrend"
regime_text RegimeState.downtrend = "downtrend"
regime_text RegimeState.compression = "compression"
regime_text RegimeState.crowded_leverage = "crowded_leverage"
regime_text RegimeState.post_liquidation = "post_liquidation"

abbrev pub exit_text : ExitReason → String
exit_text ExitReason.sl = "SL"
exit_text ExitReason.tp = "TP"
exit_text ExitReason.tp_partial = "TP_PARTIAL"
exit_text ExitReason.tp_trail = "TP_TRAIL"
exit_text ExitReason.timeout = "TIMEOUT"
exit_text ExitReason.end_of_backtest = "END_OF_BACKTEST"

module _ {W : Type 0} ⦃d : Double W⦄ where
  open d use {add, sub, mul, div, abs, le, lit, of_nat}

  abbrev pub path_of : OpenPositionRecord W → List (Candle W)
  path_of r = map (λ c. c.1) r.candles_path

  -- `sum(values) / max(len(values), 1)`
  abbrev pub mean_slippage : List W → W
  mean_slippage values = div (foldl add nought values) (of_nat (max_nat (length values) 1))

  abbrev pub as_opened : OpenPositionRecord W → Position W
  as_opened r = record r.position { size = r.initial_size; stop_loss = r.initial_stop_loss }

  -- The trade and the closed position, for the fill of what is left
  unfoldable pub settle_record :
      Time → ExitReason → FillResult W → OpenPositionRecord W → ClosedTradeRecord W
  unfolding build_settlement_metrics
  settle_record now reason fill r =
      let settlement = build_settlement_metrics r.position fill.filled_price reason (path_of r) in
      let fees_total = add r.total_fees fill.fee_paid in
      let gross = add r.realized_pnl_abs_gross settlement.pnl_abs in
      let pnl_abs_net = sub (sub gross fees_total) r.funding_paid in
      let closed_qty = add r.closed_qty r.position.size in
      let notional = add r.exit_notional_sum (mul settlement.exit_price r.position.size) in
      let exit_price = div notional (max closed_qty (lit 1 8)) in
      let final = build_settlement_metrics (as_opened r) exit_price reason (path_of r) in
      let risk_notional =
        mul (abs (sub r.position.entry_price r.initial_stop_loss)) r.initial_size in
      let trade : TradeLog W = record {
        trade_id = r.trade_id;
        signal_id = r.position.signal_id;
        opened_at = r.position.opened_at;
        closed_at = some now;
        direction = direction_text r.position.direction;
        regime = regime_text r.candidate.regime;
        confluence_score = r.candidate.confluence_score;
        entry_price = r.position.entry_price;
        exit_price = some exit_price;
        size = r.initial_size;
        fees = fees_total;
        slippage_bps = mean_slippage (r.slippage_samples ++ (fill.slippage_bps ∷ []));
        pnl_abs = pnl_abs_net;
        pnl_r = div pnl_abs_net (max risk_notional (lit 1 8));
        mae = final.mae;
        mfe = final.mfe;
        exit_reason = some (exit_text final.exit_reason);
        funding_paid = r.funding_paid;
      } in
      record {
        position = record (as_opened r) { status = PositionStatus.closed; updated_at = now };
        candidate = r.candidate;
        executable = r.executable;
        trade = trade;
      }
