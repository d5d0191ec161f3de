-- ===== src/Backtest/Positions.antt =====
-- backtest/backtest_runner.py: an open position of a replay, with its funding, its path of candles
-- and its trailing stop.
use btc_bot.Prelude.{
  String, Bool, false, not, Option, none, some, List, [], ◌∷◌, ◌++◌, leb, if◌then◌else◌,
}
use btc_bot.Prelude.Double.{Double, nought, max, min}
use btc_bot.Core.Models.{Time, Direction, Position, SignalCandidate, ExecutableSignal}
use btc_bot.Core.Candles.{Candle}
use btc_bot.Core.Funding.{RawSample}
use btc_bot.Execution.Paper.{OrderSide}
use btc_bot.Backtest.Performance.{TradeLog}
use btc_bot.Backtest.Fill.{FillModel}

-- A candle with its `open_time`, which is `none` if it is no datetime
abbrev pub PathCandle : Type 0 → Type 0
PathCandle W = Option Time × Candle W

-- `_OpenPositionRecord`
pub record OpenPositionRecord (W : Type 0) : Type 0 where
  pub trade_id : String
  pub position : Position W
  pub candidate : SignalCandidate W
  pub executable : ExecutableSignal W
  pub entry_fee : W
  pub entry_slippage_bps : W
  pub initial_size : W
  pub initial_stop_loss : W
  pub atr_15m : W
  pub total_fees : W
  pub funding_paid : W
  pub realized_pnl_abs_gross : W
  pub closed_qty : W
  pub exit_notional_sum : W
  pub partial_exit_done : Bool
  pub trailing_stop : Option W
  pub highest_high_since_partial : Option W
  pub lowest_low_since_partial : Option W
  pub last_funding_accrual_at : Option Time
  pub slippage_samples : List W
  pub candles_path : List (PathCandle W)

-- `_ClosedTradeRecord`; its `position_id` is that of its position.
pub record ClosedTradeRecord (W : Type 0) : Type 0 where
  pub position : Position W
  pub candidate : SignalCandidate W
  pub executable : ExecutableSignal W
  pub trade : TradeLog W

abbrev pub or_else_time : Option Time → Time → Time
or_else_time none t = t
or_else_time (some at) t = at

-- The `open_time` of the last candle
abbrev pub last_open_time : {W : Type 0} → List (PathCandle W) → Option Time
last_open_time [] = none
last_open_time (c ∷ []) = c.0
last_open_time (c ∷ (c' ∷ cs)) = last_open_time (c' ∷ cs)

-- A candle that opens at `t` is not after the last one.
abbrev pub is_covered : Option Time → Time → Bool
is_covered none t = false
is_covered (some last) t = leb t last

unfoldable pub append_candle :
    {W : Type 0} → List (PathCandle W) → PathCandle W → List (PathCandle W)
append_candle path (none, candle) = path ++ ((none, candle) ∷ [])
append_candle path (some t, candle) =
    if is_covered (last_open_time path) t then path else path ++ ((some t, candle) ∷ [])

abbrev pub close_side : Direction → OrderSide
close_side Direction.long = OrderSide.sell
close_side Direction.short = OrderSide.buy

module _ {W : Type 0} ⦃d : Double W⦄ where
  open d use {add, sub, mul, le, lt, eq, lit}

  abbrev pub paid_until :
      FillModel W
      → List (RawSample W)
      → Time
      → Time
      → OpenPositionRecord W
      → W
      → OpenPositionRecord W
  paid_until fills samples last until r notional =
      if le notional nought then record r { last_funding_accrual_at = some until } else record r {
        funding_paid =
            add r.funding_paid
              (fills.calculate_funding r.position.direction notional last until samples);
        last_funding_accrual_at = some until;
      }

  unfoldable pub accrue_funding :
      FillModel W → List (RawSample W) → Time → OpenPositionRecord W → OpenPositionRecord W
  accrue_funding fills samples until r =
      let last = or_else_time r.last_funding_accrual_at r.position.opened_at in
      if leb until last
      then r
      else paid_until fills samples last until r
          (max (mul r.position.entry_price r.position.size) nought)

  -- `value or other`, of a float that may be missing
  abbrev pub or_float : Option W → W → W
  or_float none other = other
  or_float (some w) other = if eq w nought then other else w

  abbrev pub given : Option W → W → W
  given none other = other
  given (some w) other = w

  -- the stop that is moved to `stop`
  abbrev pub stopped_at : W → OpenPositionRecord W → OpenPositionRecord W
  stopped_at stop r = record r {
    trailing_stop = some stop;
    position = record r.position { stop_loss = stop };
  }

  abbrev pub trail_distance : W → OpenPositionRecord W → W
  trail_distance trailing_atr_mult r = mul (max trailing_atr_mult nought) (max r.atr_15m (lit 1 8))

  abbrev pub trailed : W → W → W → OpenPositionRecord W → Direction → OpenPositionRecord W
  trailed trailing_atr_mult latest_high latest_low r Direction.long =
      let reference = max (or_float r.highest_high_since_partial latest_high) latest_high in
      let current = given r.trailing_stop r.position.stop_loss in
      stopped_at (max current (sub reference (trail_distance trailing_atr_mult r)))
        (record r { highest_high_since_partial = some reference })
  trailed trailing_atr_mult latest_high latest_low r Direction.short =
      let reference = min (or_float r.lowest_low_since_partial latest_low) latest_low in
      let current = given r.trailing_stop r.position.stop_loss in
      stopped_at (min current (add reference (trail_distance trailing_atr_mult r)))
        (record r { lowest_low_since_partial = some reference })

  unfoldable pub update_trailing_stop : W → W → W → OpenPositionRecord W → OpenPositionRecord W
  update_trailing_stop trailing_atr_mult latest_high latest_low r =
      if not r.partial_exit_done
      then r
      else trailed trailing_atr_mult latest_high latest_low r r.position.direction
