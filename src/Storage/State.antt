-- ===== src/Storage/State.antt =====
-- storage/state_store.py, the operations of `StateStore` on the runtime state. The clock is an
-- argument.
use btc_bot.Prelude.{
  List, ℕ, Bool, true, false, String, Option, none, some, ◌++◌, [], ◌∷◌, if◌then◌else◌,
}
use btc_bot.Prelude.Double.{Double}
use btc_bot.Core.Models.{Time, Position, BotState, GovernanceRuntimeState, RiskRuntimeState}
use btc_bot.Storage.Tables.{Tables, SafeModeEventType, SafeModeEvent, DailyMetrics}
use btc_bot.Storage.Queries.{
  fetch_open_positions, fetch_open_trade_positions, date_of, get_open_positions_count,
  get_daily_metrics, get_last_closed_loss_at,
}
use btc_bot.Storage.Trigger.{event_trigger}
use btc_bot.Storage.Runtime.{Store, save, refresh_runtime_state}

abbrev event_type : Bool → SafeModeEventType
event_type true = SafeModeEventType.entered
event_type false = SafeModeEventType.cleared

abbrev pub event_of : Bool → Option String → Time → SafeModeEvent
unfolding event_trigger
event_of enabled reason now = record {
  event_type = event_type enabled;
  trigger = event_trigger reason;
  reason = reason;
  timestamp = now;
}

module _ {W : Type 0} ⦃d : Double W⦄ where
  -- when safe mode was entered
  abbrev pub entry_time : Bool → BotState W → Time → Option Time
  entry_time false state now = none
  entry_time true state now = if state.safe_mode then state.safe_mode_entry_at else some now

  -- The INSERT of the event. A failure is only logged, and the event is then not in the table.
  abbrev insert_event : Store W → SafeModeEvent → Tables W → Tables W
  insert_event store event t = record t {
    safe_mode_events =
        if store.takes_event t event
        then t.safe_mode_events ++ (event ∷ [])
        else t.safe_mode_events;
  }

  -- the state that `set_safe_mode` saves
  abbrev pub updated_state : Bool → Option String → Time → BotState W × Tables W → BotState W
  unfolding get_open_positions_count
  updated_state enabled reason now fresh = record (fresh.0) {
    healthy = if enabled then false else true;
    safe_mode = enabled;
    open_positions_count = get_open_positions_count fresh.1;
    last_error = if enabled then reason else none;
    safe_mode_entry_at = entry_time enabled fresh.0 now;
  }

  -- `set_safe_mode` from the refreshed state on
  unfoldable pub switched :
      Store W → Bool → Option String → Time → BotState W × Tables W → BotState W × Tables W
  unfolding save event_trigger get_open_positions_count
  switched store enabled reason now fresh =
      let updated = updated_state enabled reason now fresh in
      (updated, insert_event store (event_of enabled reason now) (save updated fresh.1))

  unfoldable pub set_safe_mode :
      Store W → Bool → Option String → Time → Tables W → BotState W × Tables W
  unfolding refresh_runtime_state switched
  set_safe_mode store enabled reason now t =
      switched store enabled reason now (refresh_runtime_state store now t)

  -- The event of a call of `set_safe_mode`, and whether the database takes it.
  abbrev pub attempt :
      Store W → Bool → Option String → Time → BotState W × Tables W → SafeModeEvent × Bool
  unfolding save
  attempt store enabled reason now fresh =
      let event = event_of enabled reason now in
      (event, store.takes_event (save (updated_state enabled reason now fresh) fresh.1) event)

  unfoldable pub get_open_positions : Tables W → ℕ
  unfolding get_open_positions_count
  get_open_positions t = get_open_positions_count t

  unfoldable pub get_open_positions_snapshot : Tables W → List (Position W)
  unfolding fetch_open_positions
  get_open_positions_snapshot t = fetch_open_positions t

  -- An OpenTradeRecord is a trade id with its position.
  unfoldable pub get_open_trade_records : Tables W → List (String × Position W)
  unfolding fetch_open_trade_positions
  get_open_trade_records t = fetch_open_trade_positions t

  -- `int(metrics.get("trades_count", 0))`
  abbrev pub trades_of : Option (DailyMetrics W) → ℕ
  trades_of none = 0
  trades_of (some m) = m.trades_count

  unfoldable pub get_governance_state :
      Store W → Time → Tables W → GovernanceRuntimeState W × Tables W
  unfolding refresh_runtime_state get_daily_metrics get_last_closed_loss_at
  get_governance_state store now t =
      let fresh = refresh_runtime_state store now t in
      let state = fresh.0 in
      (
        record {
          trades_today = trades_of (get_daily_metrics fresh.1 (date_of now));
          consecutive_losses = state.consecutive_losses;
          daily_dd_pct = state.daily_dd_pct;
          weekly_dd_pct = state.weekly_dd_pct;
          last_trade_at = state.last_trade_at;
          last_loss_at = get_last_closed_loss_at fresh.1;
        },
        fresh.1,
      )

  unfoldable pub get_risk_state : Store W → Time → Tables W → RiskRuntimeState W × Tables W
  unfolding refresh_runtime_state
  get_risk_state store now t =
      let fresh = refresh_runtime_state store now t in
      let state = fresh.0 in
      (
        record {
          consecutive_losses = state.consecutive_losses;
          daily_dd_pct = state.daily_dd_pct;
          weekly_dd_pct = state.weekly_dd_pct;
        },
        fresh.1,
      )

  unfoldable pub mark_error : Store W → String → Time → Tables W → Tables W
  unfolding refresh_runtime_state save
  mark_error store message now t =
      let fresh = refresh_runtime_state store now t in
      save (record (fresh.0) { healthy = false; last_error = some message }) fresh.1

  unfoldable pub mark_healthy : Store W → Time → Tables W → Tables W
  unfolding refresh_runtime_state save get_open_positions_count
  mark_healthy store now t =
      let fresh = refresh_runtime_state store now t in
      save
        (record (fresh.0) {
          healthy = true;
          last_error = none;
          open_positions_count = get_open_positions_count fresh.1;
        })
        fresh.1
