-- ===== src/Storage/Trades.antt =====
-- storage/state_store.py, the operations of `StateStore` on trades. A random id is an argument; a
-- RuntimeError is raised before anything is written.
use btc_bot.Prelude.{true, String, Option, none, some, ◌⊎◌, inl, inr, if◌then◌else◌}
use btc_bot.Prelude.Double.{Double, nought}
use btc_bot.Core.Models.{
  Time, Position, BotState, SettlementMetrics, SignalCandidate, ExecutableSignal,
}
use btc_bot.Storage.Tables.{Tables, TradeRow}
use btc_bot.Storage.Queries.{
  date_of, get_open_positions_count, get_latest_position_for_signal,
  get_open_trade_log_for_position, insert_trade_log_open, close_position, update_trade_log_close,
}
use btc_bot.Storage.Runtime.{Store, save, sync_daily_metrics, refresh_runtime_state}

-- the three RuntimeErrors
pub data StoreError : Type 0 where
  no_position_found : String → StoreError
  invalid_filled_entry_price : String → StoreError
  no_open_trade_log_row : String → StoreError

-- the ids and labels of a new row
pub record TradeLabels : Type 0 where
  pub trade_id : String
  pub schema_version : String
  pub config_hash : String

module _ {W : Type 0} ⦃d : Double W⦄ where
  open d use {le}

  -- the row of `insert_trade_log_open`
  abbrev pub opening_row :
      TradeLabels → SignalCandidate W → ExecutableSignal W → Position W → W → TradeRow W
  opening_row labels candidate executable position entry_price = record {
    trade_id = labels.trade_id;
    signal_id = executable.signal_id;
    position_id = position.position_id;
    opened_at = position.opened_at;
    closed_at = none;
    direction = executable.direction;
    regime = candidate.regime;
    confluence_score = candidate.confluence_score;
    entry_price = entry_price;
    exit_price = none;
    size = position.size;
    fees_total = nought;
    funding_paid = nought;
    slippage_bps_avg = nought;
    pnl_abs = nought;
    pnl_r = nought;
    mae = nought;
    mfe = nought;
    exit_reason = none;
    features_at_entry_json = candidate.features_json;
    schema_version = labels.schema_version;
    config_hash = labels.config_hash;
  }

  -- the end of `record_trade_open`, from the refreshed state on
  abbrev pub opened_after : Store W → Time → BotState W × Tables W → Tables W
  opened_after store opened_at fresh =
      let updated = record (fresh.0) {
        healthy = true;
        last_error = none;
        open_positions_count = get_open_positions_count fresh.1;
        last_trade_at = some opened_at;
      } in
      sync_daily_metrics store (date_of opened_at) (save updated fresh.1)

  abbrev pub or_price : W → Option W → W
  or_price price none = price
  or_price price (some filled) = filled

  unfoldable pub record_trade_open :
      Store W
      → TradeLabels
      → SignalCandidate W
      → ExecutableSignal W
      → Option W
      → Tables W
      → StoreError ⊎ (W × Tables W)
  unfolding get_latest_position_for_signal insert_trade_log_open refresh_runtime_state
      sync_daily_metrics save get_open_positions_count
  record_trade_open store labels candidate executable filled_entry_price t =
      elim (get_latest_position_for_signal t executable.signal_id) [
        | none ↦ inl (StoreError.no_position_found executable.signal_id)
        | some position ↦
            let price = or_price position.entry_price filled_entry_price in
            let row = opening_row labels candidate executable position price in
            let at = position.opened_at in
            if le price nought
            then inl (StoreError.invalid_filled_entry_price executable.signal_id)
            else inr (
              price,
              opened_after store at (refresh_runtime_state store at (insert_trade_log_open row t)),
            )
      ]

  -- the end of `settle_trade_close`, from the refreshed state on
  abbrev pub settled_after : BotState W × Tables W → Tables W
  settled_after fresh =
      save
        (record (fresh.0) {
          healthy = true;
          last_error = none;
          open_positions_count = get_open_positions_count fresh.1;
        })
        fresh.1

  unfoldable pub settle_trade_close :
      Store W → String → SettlementMetrics W → Time → Tables W → StoreError ⊎ Tables W
  unfolding get_open_trade_log_for_position close_position update_trade_log_close
      refresh_runtime_state sync_daily_metrics save get_open_positions_count
  settle_trade_close store position_id settlement closed_at t =
      elim (get_open_trade_log_for_position t position_id) [
        | none ↦ inl (StoreError.no_open_trade_log_row position_id)
        | some open_trade ↦
            let t1 = close_position position_id closed_at t in
            let t2 = update_trade_log_close open_trade.trade_id settlement closed_at t1 in
            let t3 = sync_daily_metrics store (date_of open_trade.opened_at) t2 in
            let t4 = sync_daily_metrics store (date_of closed_at) t3 in
            inr (settled_after (refresh_runtime_state store closed_at t4))
      ]
