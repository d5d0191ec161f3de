-- ===== src/Execution/Live/Execute.antt =====
-- execution/live_execution_engine.py, `execute_signal`: the entry, what is written of it, and the
-- protective orders.
use btc_bot.Prelude.{
  ℕ, String, Bool, true, false, Option, none, some, List, [], ◌∷◌, ◌++◌, map, ◌⊎◌, inl, inr,
  if◌then◌else◌,
}
use btc_bot.Prelude.Double.{Double, nought}
use btc_bot.Core.Models.{PositionStatus, Position, ExecutableSignal}
use btc_bot.Execution.Paper.{OrderType, FillEvent, Write, side_of}
use btc_bot.Execution.Orders.{OrderRequest, Exchange, Manager, TimeInForce}
use btc_bot.Execution.Live.{
  LiveError, EntryFillResult, LiveSettings, LiveDraw, exit_side, payload_to_fill_event,
}
use btc_bot.Execution.Live.Poll.{
  Action, ◌>>=◌, ◌>>◌, pure, set_leverage, send, fetch_order, wait_for_entry_fill,
}

-- An error, if one is raised, with what the persister was asked to write
pub record LiveOutcome (W X : Type 0) : Type 0 where
  pub error : Option LiveError
  pub writes : List (Write W)
  pub manager : Manager W X

-- `OPEN` or `PARTIAL`
abbrev pub status_for : Bool → PositionStatus
status_for true = PositionStatus.opened
status_for false = PositionStatus.partial

module _ {W : Type 0} where
  unfoldable pub build_entry_order :
      LiveSettings → LiveDraw → ExecutableSignal W → W → OrderRequest W
  unfolding side_of
  build_entry_order s draw signal size =
      let order : OrderRequest W = record {
        client_order_id = draw.entry_order_id;
        symbol = s.symbol;
        side = side_of signal.direction;
        order_type = OrderType.market;
        qty = size;
        price = none;
        stop_price = none;
        time_in_force = TimeInForce.gtc;
      } in
      if s.is_market
      then order
      else record order { order_type = OrderType.limit; price = some signal.entry_price }

  -- The stop and the target, for the quantity that was filled
  unfoldable pub protective_order :
      LiveSettings → ExecutableSignal W → W → String → OrderType → W → OrderRequest W
  unfolding exit_side
  protective_order s signal qty id order_type stop_price = record {
    client_order_id = id;
    symbol = s.symbol;
    side = exit_side signal.direction;
    order_type = order_type;
    qty = qty;
    price = none;
    stop_price = some stop_price;
    time_in_force = TimeInForce.gtc;
  }

  unfoldable pub live_position :
      LiveSettings → LiveDraw → ExecutableSignal W → ℕ → EntryFillResult W → Position W
  live_position s draw signal leverage fill = record {
    position_id = draw.position_id;
    symbol = s.symbol;
    direction = signal.direction;
    status = status_for fill.fully_filled;
    entry_price = fill.avg_fill_price;
    size = fill.filled_qty;
    leverage = leverage;
    stop_loss = signal.stop_loss;
    take_profit_1 = signal.take_profit_1;
    take_profit_2 = signal.take_profit_2;
    opened_at = fill.executed_at;
    updated_at = fill.executed_at;
    signal_id = signal.signal_id;
  }

  unfoldable pub entry_writes :
      LiveSettings
      → LiveDraw
      → ExecutableSignal W
      → ℕ
      → OrderType
      → EntryFillResult W
      → List (Write W)
  unfolding live_position
  entry_writes s draw signal leverage order_type fill =
      Write.insert_position (live_position s draw signal leverage fill)
      ∷ (map (Write.insert_execution_fill_event draw.position_id order_type) fill.events
          ++ (Write.commit ∷ []))

  unfoldable pub protective_writes : LiveDraw → FillEvent W → FillEvent W → List (Write W)
  protective_writes draw stop_event tp_event =
      Write.insert_execution_fill_event draw.position_id OrderType.stop_market stop_event
      ∷ Write.insert_execution_fill_event draw.position_id OrderType.take_profit_market tp_event
      ∷ Write.commit
      ∷ []

module _ {W X : Type 0} ⦃d : Double W⦄ (ex : Exchange W X) (upper : String → String)
    (round10 : W → W) (s : LiveSettings) (draw : LiveDraw) (signal : ExecutableSignal W) (size : W)
    (leverage : ℕ) where
  open d use {le}

  abbrev pub entry_order : OrderRequest W
  entry_order = build_entry_order s draw signal size

  -- The `try` of the entry
  unfoldable pub enter : Action W X (EntryFillResult W)
  enter = do
    set_leverage ex upper round10 s leverage
    id ← send ex upper round10 s LiveError.entry_execution_failed entry_order
    wait_for_entry_fill ex upper round10 s id entry_order

  -- `_snapshot_order_event`
  unfoldable pub snapshot_order_event : String → OrderRequest W → Action W X (FillEvent W)
  snapshot_order_event id order = do
    p ← fetch_order ex upper round10 s LiveError.protective_order_failed id
    λ m. (
      inr (
          payload_to_fill_event upper (ex.new_id m.outside) (ex.now m.outside) p id order.stop_price
            order.side),
      m,
    )

  -- The `try` of the protective orders
  unfoldable pub protect : W → Action W X (FillEvent W × FillEvent W)
  protect qty = do
    let stop =
        protective_order s signal qty draw.stop_order_id OrderType.stop_market signal.stop_loss
    let target =
        protective_order s signal qty draw.tp_order_id OrderType.take_profit_market
          signal.take_profit_1
    stop_id ← send ex upper round10 s LiveError.protective_order_failed stop
    tp_id ← send ex upper round10 s LiveError.protective_order_failed target
    stop_event ← snapshot_order_event stop_id stop
    tp_event ← snapshot_order_event tp_id target
    pure (stop_event, tp_event)

  unfoldable pub protected :
      EntryFillResult W → (LiveError ⊎ (FillEvent W × FillEvent W)) × Manager W X → LiveOutcome W X
  protected fill (inl e, m) = record {
    error = some e;
    writes = entry_writes s draw signal leverage entry_order.order_type fill;
    manager = m;
  }
  protected fill (inr (stop_event, tp_event), m) = record {
    error = none;
    writes =
        entry_writes s draw signal leverage entry_order.order_type fill
        ++ protective_writes draw stop_event tp_event;
    manager = m;
  }

  unfoldable pub entered : (LiveError ⊎ EntryFillResult W) × Manager W X → LiveOutcome W X
  entered (inl e, m) = record { error = some e; writes = []; manager = m }
  entered (inr fill, m) =
      if le fill.filled_qty nought
      then record { error = some LiveError.zero_fill_qty; writes = []; manager = m }
      else protected fill (protect fill.filled_qty m)

  unfoldable pub execute_live : Manager W X → LiveOutcome W X
  execute_live m = entered (enter m)
