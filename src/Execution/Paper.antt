-- ===== src/Execution/Paper.antt =====
-- execution/paper_execution_engine.py: `execute_signal`, with FillEvent of core/execution_types.py.
-- What the engine asks of its persister is a list of writes; the random ids and the clock are
-- arguments. A price that is given is a float.
pub mod Bracket
use btc_bot.Prelude.{
  ℕ, String, Bool, true, false, not, ◌&&◌, Option, none, some, List, [], ◌∷◌, if◌then◌else◌,
}
use btc_bot.Prelude.Double.{Double, nought}
use btc_bot.Core.Models.{Time, Direction, PositionStatus, Position, ExecutableSignal}

pub data OrderSide : Type 0 where
  buy sell : OrderSide

pub data OrderType : Type 0 where
  limit market stop_market take_profit_market : OrderType

pub data ExecutionStatus : Type 0 where
  new partially_filled filled canceled rejected : ExecutionStatus

pub record FillEvent (W : Type 0) : Type 0 where
  pub execution_id : String
  pub client_order_id : String
  pub status : ExecutionStatus
  pub side : OrderSide
  pub requested_price : Option W
  pub filled_price : Option W
  pub qty : W
  pub fees : W
  pub slippage_bps : W
  pub executed_at : Time
  pub snapshot_id : Option String

pub data Write (W : Type 0) : Type 0 where
  insert_position : Position W → Write W
  insert_execution_fill_event : String → OrderType → FillEvent W → Write W
  commit : Write W

-- the three ValueErrors
pub data PaperError (W : Type 0) : Type 0 where
  requires_snapshot_price : PaperError W
  invalid_fill_price : W → PaperError W
  paper_fill_invalid_bracket : W → PaperError W

pub record Outcome (W : Type 0) : Type 0 where
  pub error : Option (PaperError W)
  pub writes : List (Write W)

-- the ids that the engine draws, and the time at which it asks
pub record Draw : Type 0 where
  pub position_id : String
  pub execution_id : String
  pub client_order_id : String
  pub now : Time

pub record Quotes (W : Type 0) : Type 0 where
  pub snapshot_price : Option W
  pub bid_price : Option W
  pub ask_price : Option W
  pub snapshot_id : Option String

unfoldable pub side_of : Direction → OrderSide
side_of Direction.long = OrderSide.buy
side_of Direction.short = OrderSide.sell

module _ {W : Type 0} ⦃d : Double W⦄ where
  open d use {add, sub, mul, div, abs, lt, le, lit, of_nat}

  -- a quote that is given and positive, else the price of the snapshot
  abbrev quoted : Option W → W → W
  quoted none price = price
  quoted (some quote) price = if lt nought quote then quote else price

  unfoldable pub fill_price : Direction → Quotes W → W → W
  fill_price Direction.long q price = quoted q.ask_price price
  fill_price Direction.short q price = quoted q.bid_price price

  unfoldable pub is_valid_bracket : ExecutableSignal W → W → Bool
  is_valid_bracket s price = elim s.direction [
    | Direction.long ↦
        lt s.stop_loss price && lt price s.take_profit_1 && le s.take_profit_1 s.take_profit_2
    | Direction.short ↦
        le s.take_profit_2 s.take_profit_1 && lt s.take_profit_1 price && lt price s.stop_loss
  ]

  abbrev pub position_of : Draw → String → ExecutableSignal W → W → ℕ → W → Position W
  position_of draw symbol s size leverage price = record {
    position_id = draw.position_id;
    symbol = symbol;
    direction = s.direction;
    status = PositionStatus.opened;
    entry_price = price;
    size = size;
    leverage = leverage;
    stop_loss = s.stop_loss;
    take_profit_1 = s.take_profit_1;
    take_profit_2 = s.take_profit_2;
    opened_at = draw.now;
    updated_at = draw.now;
    signal_id = s.signal_id;
  }

  abbrev pub fill_of : Draw → Quotes W → ExecutableSignal W → W → W → FillEvent W
  fill_of draw q s size price = record {
    execution_id = draw.execution_id;
    client_order_id = draw.client_order_id;
    status = ExecutionStatus.filled;
    side = side_of s.direction;
    requested_price = some s.entry_price;
    filled_price = some price;
    qty = size;
    fees = mul (mul price size) (lit 4 4);
    slippage_bps =
        (if lt nought s.entry_price
          then mul (div (abs (sub price s.entry_price)) s.entry_price) (of_nat 10_000)
          else nought);
    executed_at = draw.now;
    snapshot_id = q.snapshot_id;
  }

  abbrev raised : PaperError W → Outcome W
  raised e = record { error = some e; writes = [] }

  -- `execute_signal` from the fill price on
  unfoldable pub fill_at : Draw → String → Quotes W → ExecutableSignal W → W → ℕ → W → Outcome W
  unfolding is_valid_bracket side_of
  fill_at draw symbol q s size leverage price =
      if le price nought
      then raised (PaperError.invalid_fill_price price)
      else if not (is_valid_bracket s price)
      then raised (PaperError.paper_fill_invalid_bracket price)
      else record {
        error = none;
        writes =
            Write.insert_position (position_of draw symbol s size leverage price)
            ∷ Write.insert_execution_fill_event draw.position_id OrderType.market
                (fill_of draw q s size price)
            ∷ Write.commit
            ∷ [];
      }

  unfoldable pub execute_signal : Draw → String → Quotes W → ExecutableSignal W → W → ℕ → Outcome W
  unfolding fill_at fill_price
  execute_signal draw symbol q s size leverage = elim q.snapshot_price [
    | none ↦ raised PaperError.requires_snapshot_price
    | some price ↦ fill_at draw symbol q s size leverage (fill_price s.direction q price)
  ]
