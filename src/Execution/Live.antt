-- ===== src/Execution/Live.antt =====
-- execution/live_execution_engine.py. The ids of the orders and of the position are drawn before, and
-- `round10 x` is `round(x, 10)`. Logs leave no trace in the state.
pub mod Poll
pub mod Execute
pub mod Deadline
pub mod Outcome
use text.Mathlib.Text.{◌==◌ as same_text}
use btc_bot.Prelude.{
  ℕ, zero, suc, ◌+◌, String, Bool, true, false, not, ◌&&◌, ◌||◌, Option, none, some, List, [], ◌∷◌,
  ◌++◌, map, any, ◌⊎◌, inl, inr, leb, if◌then◌else◌,
}
use btc_bot.Prelude.Double.{Double, nought}
use btc_bot.Core.Models.{Time, Direction, PositionStatus, Position, ExecutableSignal}
use btc_bot.Execution.Paper.{OrderSide, OrderType, ExecutionStatus, FillEvent, Write, side_of}
use btc_bot.Execution.Orders.{
  OrderRequest, OrderPayload, RequestError, OrderManagerError, SubmitError, Exchange, Manager,
  TimeInForce, submit, cancel,
}

-- What `execute_signal` catches
pub data Cause : Type 0 where
  order_manager : OrderManagerError → Cause
  request_error : RequestError → Cause

-- The texts of a LiveExecutionError, and an exception that is not caught; `running` is the end of the
-- fuel.
pub data LiveError : Type 0 where
  entry_execution_failed : Cause → LiveError
  zero_fill_qty : LiveError
  protective_order_failed : Cause → LiveError
  invalid_order_snapshot_payload : LiveError
  entry_order_rejected : LiveError
  entry_order_timeout_unfilled : LiveError
  entry_order_canceled : LiveError
  uncaught : LiveError
  running : LiveError

pub record EntryFillResult (W : Type 0) : Type 0 where
  pub filled_qty : W
  pub avg_fill_price : W
  pub events : List (FillEvent W)
  pub fully_filled : Bool
  pub executed_at : Time

-- The order type `MARKET`, or another one
pub record LiveSettings : Type 0 where
  pub symbol : String
  pub is_market : Bool
  -- in units of the monotonic clock
  pub entry_timeout : ℕ
  pub is_polling : Bool

pub record LiveDraw : Type 0 where
  pub position_id : String
  pub entry_order_id : String
  pub stop_order_id : String
  pub tp_order_id : String

-- What `submit` or a request raises, in a `try` with this error for what is caught
abbrev pub submit_failed : (Cause → LiveError) → SubmitError → LiveError
submit_failed caught (SubmitError.order_error e) = caught (Cause.order_manager e)
submit_failed caught SubmitError.value_error = LiveError.uncaught

abbrev pub request_failed : (Cause → LiveError) → RequestError → LiveError
request_failed caught (RequestError.unexpected _) = LiveError.uncaught
request_failed caught e = caught (Cause.request_error e)

abbrev pub status_of : Option String → String
status_of none = "NEW"
status_of (some s) = s

unfoldable pub map_status : (String → String) → Option String → ExecutionStatus
map_status upper raw =
    let s = upper (status_of raw) in
    if same_text s "NEW"
    then ExecutionStatus.new
    else if same_text s "PARTIALLY_FILLED"
    then ExecutionStatus.partially_filled
    else if same_text s "FILLED"
    then ExecutionStatus.filled
    else if same_text s "CANCELED"
    then ExecutionStatus.canceled
    else if same_text s "EXPIRED"
    then ExecutionStatus.canceled
    else ExecutionStatus.rejected

abbrev pub same_status : ExecutionStatus → ExecutionStatus → Bool
same_status ExecutionStatus.new ExecutionStatus.new = true
same_status ExecutionStatus.partially_filled ExecutionStatus.partially_filled = true
same_status ExecutionStatus.filled ExecutionStatus.filled = true
same_status ExecutionStatus.canceled ExecutionStatus.canceled = true
same_status ExecutionStatus.rejected ExecutionStatus.rejected = true
same_status _ _ = false

-- `payload.get(key) or default`
abbrev pub or_default : {A : Type 0} → Option A → A → A
or_default none a = a
or_default (some b) a = b

unfoldable pub exit_side : Direction → OrderSide
exit_side Direction.long = OrderSide.sell
exit_side Direction.short = OrderSide.buy

-- `PARTIALLY_FILLED` or `FILLED`
abbrev pub has_fill : ExecutionStatus → Bool
has_fill ExecutionStatus.partially_filled = true
has_fill ExecutionStatus.filled = true
has_fill _ = false

-- `seen`: the status, the rounded quantity and the price of each event
abbrev pub Seen : Type 0 → Type 0
Seen W = List (ExecutionStatus × W × Option W)

module _ {W : Type 0} ⦃d : Double W⦄ where
  open d use {sub, mul, div, abs, le, lt, eq, of_nat}

  -- `_to_float(value, 0.0)`
  abbrev pub to_float : Option W → W
  to_float value = or_default value nought

  -- `price and price > 0`
  abbrev pub is_price : Option W → Bool
  is_price none = false
  is_price (some p) = lt nought p

  -- the price, if it is positive
  abbrev pub positive_price : Option W → Option W
  positive_price p = if is_price p then p else none

  abbrev pub slippage : Option W → Option W → W
  slippage (some requested) (some filled) =
      if lt nought requested && lt nought filled
      then mul (div (abs (sub filled requested)) requested) (of_nat 10_000)
      else nought
  slippage _ _ = nought

  abbrev pub filled_price_of : ExecutionStatus → Option W → Option W → Option W
  filled_price_of status avg_price requested_price =
      let avg = to_float avg_price in
      if lt nought avg then some avg else if has_fill status then requested_price else none

  abbrev pub event_qty_of : ExecutionStatus → OrderPayload W → W
  event_qty_of status p =
      if has_fill status
      then to_float p.executed_qty
      else if lt nought (to_float p.orig_qty)
      then to_float p.orig_qty
      else to_float p.executed_qty

  -- with the random id and the time at which it asks
  unfoldable pub payload_to_fill_event :
      (String → String)
      → String
      → Time
      → OrderPayload W
      → String
      → Option W
      → OrderSide
      → FillEvent W
  payload_to_fill_event upper id now p client_order_id requested_price fallback_side =
      let status = map_status upper p.status in
      let filled_price = filled_price_of status p.avg_price requested_price in
      record {
        execution_id = id;
        client_order_id = or_default p.client_order_id client_order_id;
        status = status;
        side = or_default p.side fallback_side;
        requested_price = requested_price;
        filled_price = positive_price filled_price;
        qty = event_qty_of status p;
        fees = to_float p.commission;
        slippage_bps = slippage requested_price filled_price;
        executed_at = or_default p.update_time now;
        snapshot_id = none;
      }

  -- `price or 0.0`; a price that is 0 gives 0 too.
  abbrev pub price_or_zero : Option W → W
  price_or_zero p = or_default p nought

  -- `event.filled_price or request.price or 0.0`: the first is positive where it is given.
  abbrev pub fill_price_of : FillEvent W → OrderRequest W → W
  fill_price_of event request = elim event.filled_price [
    | some p ↦ p
    | none ↦ price_or_zero request.price
  ]

  abbrev pub avg_price_of : OrderPayload W → OrderRequest W → W
  avg_price_of p request =
      let avg = to_float p.avg_price in if lt nought avg then avg else price_or_zero request.price

  -- The result for what was filled of an order that ends before it is filled
  abbrev pub partial_fill :
      OrderPayload W → OrderRequest W → List (FillEvent W) → Time → EntryFillResult W
  partial_fill p request events at = record {
    filled_qty = to_float p.executed_qty;
    avg_fill_price = avg_price_of p request;
    events = events;
    fully_filled = false;
    executed_at = at;
  }

  abbrev same_price : Option W → Option W → Bool
  same_price none none = true
  same_price (some a) (some b) = eq a b
  same_price _ _ = false

  -- `key in seen`
  abbrev pub is_seen : ExecutionStatus × W × Option W → Seen W → Bool
  is_seen k = any (λ s. same_status k.0 s.0 && eq k.1 s.1 && same_price k.2 s.2)
