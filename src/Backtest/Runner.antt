-- ===== src/Backtest/Runner.antt =====
-- backtest/backtest_runner.py: the state of a replay, and the loops over its open positions.
use btc_bot.Prelude.{ℕ, ◌-◌, String, false, Option, none, some, List, [], ◌∷◌, ◌++◌, ◌⊎◌, inl, inr}
use btc_bot.Prelude.Double.{Double, nought, max}
use btc_bot.Core.Models.{minutes, Time, PositionStatus, SignalCandidate, ExecutableSignal}
use btc_bot.Core.Candles.{Candle}
use btc_bot.Core.Features.History.{Histories}
use btc_bot.Core.Features.Snapshot.{MarketSnapshot}
use btc_bot.Core.Governance.{Levels}
use btc_bot.Core.Risk.{RiskDecision}
use btc_bot.Core.Funding.{RawSample}
use btc_bot.Execution.Paper.{OrderType}
use btc_bot.Orchestrator.World.{Settings}
use btc_bot.Backtest.Performance.{TradeLog, PerformanceReport}
use btc_bot.Backtest.Fill.{FillModel, FillResult, FillError}
use btc_bot.Backtest.Positions.{OpenPositionRecord, ClosedTradeRecord}
use btc_bot.Backtest.Exits.{Bar, Fate, manage_record}

-- A snapshot with the `open_time` of its last candle
pub record ReplaySnapshot (W : Type 0) : Type 0 where
  pub snapshot : MarketSnapshot W
  pub last_open_time : Option Time

-- The texts of the ids, for a number that counts from 1
pub record Ids : Type 0 where
  pub signal_id : Time → ℕ → String
  pub position_id : ℕ → String
  pub trade_id : ℕ → String
  -- the id that `generate` draws, which is replaced
  pub drawn : String

pub record BacktestConfig (W : Type 0) : Type 0 where
  -- `max(float(config.initial_equity), 1e-8)`
  pub initial_equity : W
  -- `settings.strategy.symbol.upper()`
  pub position_symbol : String
  -- what `_normalize_order_type` gives, which raises for anything but LIMIT and MARKET
  pub entry_order_type : OrderType

-- The variables of `run` and the counters and engines of the runner
pub record Replay (W : Type 0) : Type 0 where
  pub open_positions : List (OpenPositionRecord W)
  pub closed_records : List (ClosedTradeRecord W)
  pub opened_trade_times : List Time
  pub closed_pnl_events : List (Time × W)
  pub equity : W
  pub equity_curve : List (Time × W)
  pub last_seen : Option (Time × W)
  pub signal_counter : ℕ
  pub position_counter : ℕ
  pub trade_counter : ℕ
  pub histories : Histories W
  pub levels : Levels W

pub record BacktestResult (W : Type 0) : Type 0 where
  pub performance : PerformanceReport W
  pub trades : List (TradeLog W)
  pub equity_curve : List (Time × W)

-- What the loops over the open positions keep: `remaining`, what they add to the lists of closed
-- trades and of their gains, and `equity_delta`
pub record Closing (W : Type 0) : Type 0 where
  pub remaining : List (OpenPositionRecord W)
  pub closed_records : List (ClosedTradeRecord W)
  pub closed_pnl_events : List (Time × W)
  pub equity_delta : W

abbrev pub last_candle : {W : Type 0} → List (Candle W) → Option (Candle W)
last_candle [] = none
last_candle (c ∷ []) = some c
last_candle (c ∷ (c' ∷ cs)) = last_candle (c' ∷ cs)

-- `raise` passes on.
abbrev pub if_filled : {W A B : Type 0} → FillError W ⊎ A → (A → FillError W ⊎ B) → FillError W ⊎ B
if_filled (inl e) f = inl e
if_filled (inr a) f = f a

module _ {W : Type 0} ⦃d : Double W⦄ where
  open d use {add}

  -- The last candle, or one at the price of the snapshot
  unfoldable pub bar_of : ReplaySnapshot W → Bar W
  bar_of s =
      let price = s.snapshot.price in
      record {
        now = s.snapshot.timestamp;
        candle = elim (last_candle s.snapshot.candles_15m) [
          | some c ↦ (s.last_open_time, c)
          | none ↦ (
            some (s.snapshot.timestamp - minutes 15),
            record { opening = price; high = price; low = price; close = price },
          )
        ];
      }

  abbrev pub with_closed : Time → ClosedTradeRecord W → Closing W → Closing W
  with_closed now t k = record k {
    closed_records = k.closed_records ++ (t ∷ []);
    closed_pnl_events = k.closed_pnl_events ++ ((now, t.trade.pnl_abs) ∷ []);
    equity_delta = add k.equity_delta t.trade.pnl_abs;
  }

  abbrev pub with_fate : Time → Fate W → Closing W → Closing W
  with_fate now (Fate.kept r) k = record k { remaining = k.remaining ++ (r ∷ []) }
  with_fate now Fate.dropped k = k
  with_fate now (Fate.closed_with t) k = with_closed now t k

  module _ (s : Settings W) (fills : FillModel W) (samples : List (RawSample W)) (ids : Ids)
      (config : BacktestConfig W) where
    unfoldable pub close_loop :
        Bar W → List (OpenPositionRecord W) → Closing W → FillError W ⊎ Closing W
    unfolding manage_record
    close_loop bar [] k = inr k
    close_loop bar (r ∷ rs) k =
        if_filled (manage_record s.risk fills samples bar r)
          (λ fate. close_loop bar rs (with_fate bar.now fate k))

    abbrev pub closing_of : Replay W → Closing W
    closing_of w = record {
      remaining = [];
      closed_records = w.closed_records;
      closed_pnl_events = w.closed_pnl_events;
      equity_delta = nought;
    }

    abbrev pub with_closing : Closing W → Replay W → Replay W
    with_closing k w = record w {
      open_positions = k.remaining;
      closed_records = k.closed_records;
      closed_pnl_events = k.closed_pnl_events;
      equity = add w.equity k.equity_delta;
    }

    unfoldable pub close_positions_if_needed : Bar W → Replay W → FillError W ⊎ Replay W
    unfolding close_loop
    close_positions_if_needed bar w =
        if_filled (close_loop bar w.open_positions (closing_of w)) (λ k. inr (with_closing k w))

    unfoldable pub open_record :
        Time
        → SignalCandidate W
        → ExecutableSignal W
        → RiskDecision W
        → ℕ
        → ℕ
        → FillResult W
        → OpenPositionRecord W
    open_record now candidate executable risk position_number trade_number fill = record {
      trade_id = ids.trade_id trade_number;
      position = record {
        position_id = ids.position_id position_number;
        symbol = config.position_symbol;
        direction = executable.direction;
        status = PositionStatus.opened;
        entry_price = fill.filled_price;
        size = risk.size;
        leverage = risk.leverage;
        stop_loss = executable.stop_loss;
        take_profit_1 = executable.take_profit_1;
        take_profit_2 = executable.take_profit_2;
        opened_at = now;
        updated_at = now;
        signal_id = executable.signal_id;
      };
      candidate = candidate;
      executable = executable;
      entry_fee = fill.fee_paid;
      entry_slippage_bps = fill.slippage_bps;
      initial_size = risk.size;
      initial_stop_loss = executable.stop_loss;
      atr_15m = max candidate.features_json.atr_15m nought;
      total_fees = fill.fee_paid;
      funding_paid = nought;
      realized_pnl_abs_gross = nought;
      closed_qty = nought;
      exit_notional_sum = nought;
      partial_exit_done = false;
      trailing_stop = none;
      highest_high_since_partial = none;
      lowest_low_since_partial = none;
      last_funding_accrual_at = some now;
      slippage_samples = fill.slippage_bps ∷ [];
      candles_path = [];
    }
