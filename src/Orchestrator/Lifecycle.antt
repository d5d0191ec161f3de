-- ===== src/Orchestrator/Lifecycle.antt =====
-- orchestrator.py, `_process_trade_lifecycle`: the exits of the open trades, at the latest candle.
use btc_bot.Prelude.{
  Bool, true, false, String, Option, none, some, List, [], ◌∷◌, inl, inr, leb, if◌then◌else◌,
}
use btc_bot.Prelude.Double.{Double, nought, max}
use btc_bot.Prelude.Tails.{last}
use btc_bot.Core.Candles.{Candle}
use btc_bot.Core.Models.{Time, Position, ExitReason, SettlementMetrics}
use btc_bot.Core.Risk.{RiskConfig, ExitDecision, evaluate_exit, build_settlement_metrics}
use btc_bot.Core.Funding.{RawSample, compute_funding_paid}
use btc_bot.Core.Features.Snapshot.{MarketSnapshot}
use btc_bot.Storage.Tables.{Tables}
use btc_bot.Storage.State.{get_open_trade_records}
use btc_bot.Storage.Trades.{StoreError, settle_trade_close}
use btc_bot.Orchestrator.World.{Settings, Feed, ClosedEvent}

-- `candle_ts >= opened_at`, or no `open_time`
abbrev is_since : Time → Option Time → Bool
is_since opened_at none = true
is_since opened_at (some at) = leb opened_at at

-- The tables after the loop, with the error that ended it, if one did: the events are then not read.
pub record Lifecycle (W : Type 0) : Type 0 where
  pub error : Option StoreError
  pub closed_events : List (ClosedEvent W)
  pub tables : Tables W

module _ {W : Type 0} where
  -- A candle without a time is kept.
  unfoldable pub candles_since_open : List (Option Time) → List (Candle W) → Time → List (Candle W)
  candles_since_open times [] opened_at = []
  candles_since_open [] (k ∷ ks) opened_at = k ∷ ks
  candles_since_open (at ∷ times) (k ∷ ks) opened_at =
      let rest = candles_since_open times ks opened_at in
      if is_since opened_at at then k ∷ rest else rest

  abbrev put_event : ClosedEvent W → Lifecycle W → Lifecycle W
  put_event e l = record l { closed_events = e ∷ l.closed_events }

module _ {W : Type 0} ⦃d : Double W⦄ where
  open d use {sub, mul}

  -- high, low and close of the last candle, or the price three times
  abbrev latest : Option (Candle W) → W → W × W × W
  latest none price = (price, price, price)
  latest (some k) price = (k.high, k.low, k.close)

  unfoldable pub compute_position_funding_paid :
      (String → Time → Time → List (RawSample W)) → Position W → Time → W
  unfolding compute_funding_paid
  compute_position_funding_paid funding_rates p closed_at =
      compute_funding_paid p.direction (max (mul p.entry_price p.size) nought) p.opened_at closed_at
        (funding_rates p.symbol p.opened_at closed_at)

  -- the settlement of a position that leaves at a price
  unfoldable pub settlement_of :
      (String → Time → Time → List (RawSample W))
      → Feed W
      → Position W
      → W
      → ExitReason
      → SettlementMetrics W
  unfolding build_settlement_metrics candles_since_open compute_position_funding_paid
  settlement_of funding_rates feed p exit_price reason =
      let path = candles_since_open feed.open_times feed.snapshot.candles_15m p.opened_at in
      let settlement = build_settlement_metrics p exit_price reason path in
      let funding = compute_position_funding_paid funding_rates p feed.snapshot.timestamp in
      record settlement { pnl_abs = sub settlement.pnl_abs funding; funding_paid = funding }

  abbrev event_of : Position W → SettlementMetrics W → Time → ClosedEvent W
  event_of p m at = record {
    position_id = p.position_id;
    symbol = p.symbol;
    direction = p.direction;
    entry_price = p.entry_price;
    exit_price = m.exit_price;
    pnl_abs = m.pnl_abs;
    exit_reason = m.exit_reason;
    closed_at = at;
  }

  -- the price and the reason of a decision to close
  abbrev exit_of : ExitDecision W → Option (W × ExitReason)
  exit_of decision =
      if decision.should_close
      then elim decision.exit_price [
        | none ↦ none
        | some price ↦ elim decision.reason [ none ↦ none | some reason ↦ some (price, reason) ]
      ]
      else none

  unfoldable pub exit_at : RiskConfig W → MarketSnapshot W → Position W → Option (W × ExitReason)
  unfolding evaluate_exit
  exit_at c s p =
      let (high, low, close) = latest (last s.candles_15m) s.price in
      exit_of (evaluate_exit c p s.timestamp high low close false false)

  -- the loop over the open trades
  unfoldable pub close_records :
      Settings W
      → (String → Time → Time → List (RawSample W))
      → Feed W
      → List (String × Position W)
      → Tables W
      → Lifecycle W
  unfolding exit_at settlement_of settle_trade_close
  close_records s funding_rates feed [] t = record { error = none; closed_events = []; tables = t }
  close_records s funding_rates feed (r ∷ rs) t =
      let p = r.1 in
      let at = feed.snapshot.timestamp in
      elim (exit_at s.risk feed.snapshot p) [
        | none ↦ close_records s funding_rates feed rs t
        | some (price, reason) ↦
            let m = settlement_of funding_rates feed p price reason in
            elim (settle_trade_close s.store p.position_id m at t) [
              | inl e ↦ record { error = some e; closed_events = []; tables = t }
              | inr t' ↦ put_event (event_of p m at) (close_records s funding_rates feed rs t')
            ]
      ]

  unfoldable pub process_trade_lifecycle :
      Settings W → (String → Time → Time → List (RawSample W)) → Feed W → Tables W → Lifecycle W
  unfolding get_open_trade_records close_records
  process_trade_lifecycle s funding_rates feed t =
      close_records s funding_rates feed (get_open_trade_records t) t
