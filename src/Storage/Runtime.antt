-- ===== src/Storage/Runtime.antt =====
-- storage/state_store.py, `StateStore` up to `refresh_runtime_state`: the runtime state and what is
-- computed into it from the trade log. The tables are passed along; the schema is in place, so
-- `_apply_migrations` and `_to_utc` change nothing.
use btc_bot.Prelude.{
  ℕ, suc, ◌+◌, ◌-◌, ◌*◌, ◌%◌, Bool, true, false, not, Option, none, some, List, [], ◌∷◌, map, foldl,
  keep, length, if◌then◌else◌, is_some,
}
use btc_bot.Prelude.Double.{Double, nought, max, min}
use btc_bot.Core.Models.{Time, hours, BotMode, BotState}
use btc_bot.Storage.Tables.{Tables, TradeRow, SafeModeEvent}
use btc_bot.Storage.Queries.{
  date_of, is_same_day, closing_time, get_open_positions_count, fetch_trade_log_rows_for_day,
  fetch_recent_closed_trade_outcomes, fetch_closed_trade_pnl_series_between,
  sum_closed_pnl_abs_before, upsert_daily_metrics,
}

-- `StateStore.__init__`, before it bounds the equity from below. `sum` is SQL's SUM, and
-- `takes_event` is whether the database takes the INSERT of an event into safe_mode_events.
pub record Store (W : Type 0) : Type 0 where
  pub mode : BotMode
  pub given_equity : W
  pub sum : List W → W
  pub takes_event : Tables W → SafeModeEvent → Bool

abbrev pub day_start : ℕ → Time
day_start day = day * hours 24

-- `weekday()` of a day: Monday is 0, and the epoch was a Thursday
abbrev pub weekday : ℕ → ℕ
weekday day = (day + 3) % 7

module _ {W : Type 0} ⦃d : Double W⦄ where
  open d use {add, sub, div, lt, of_nat, lit}

  abbrev pub reference_equity : Store W → W
  reference_equity store = max store.given_equity (lit 1 8)

  unfoldable pub save : BotState W → Tables W → Tables W
  save state t = record t { bot_state = some state }

  unfoldable pub load : Tables W → Option (BotState W)
  load t = t.bot_state

  abbrev pub initial_state : Store W → BotState W
  initial_state store = record {
    mode = store.mode;
    healthy = true;
    safe_mode = false;
    open_positions_count = 0;
    consecutive_losses = 0;
    daily_dd_pct = nought;
    weekly_dd_pct = nought;
    last_trade_at = none;
    last_error = none;
    safe_mode_entry_at = none;
  }

  -- the state and the tables after `ensure_initialized`
  unfoldable pub ensure_initialized : Store W → Tables W → BotState W × Tables W
  unfolding save load
  ensure_initialized store t = elim (load t) [
    | some state ↦ (state, t)
    | none ↦ (initial_state store, save (initial_state store) t)
  ]

  abbrev total : List W → W
  total = foldl add nought

  abbrev average : List W → W
  average [] = nought
  average (x ∷ xs) = div (total (x ∷ xs)) (of_nat (length (x ∷ xs)))

  unfoldable pub sync_daily_metrics : Store W → ℕ → Tables W → Tables W
  unfolding ensure_initialized upsert_daily_metrics fetch_trade_log_rows_for_day
  sync_daily_metrics store day t =
      let rows = fetch_trade_log_rows_for_day t day in
      let closed_rows = keep (λ r. is_some r.closed_at) rows in
      let pnl_rs = map (λ r. r.pnl_r) closed_rows in
      let ready = ensure_initialized store t in
      upsert_daily_metrics day
        (record {
          trades_count = length rows;
          wins = length (keep (λ r. lt nought r.pnl_abs) closed_rows);
          losses = length (keep (λ r. lt r.pnl_abs nought) closed_rows);
          pnl_abs = total (map (λ r. r.pnl_abs) closed_rows);
          pnl_r_sum = total pnl_rs;
          daily_dd_pct = ready.0.daily_dd_pct;
          expectancy_r = average pnl_rs;
        })
        ready.1

  -- the loop of `_compute_consecutive_losses`, on closed trades from the newest
  unfoldable pub losses_from : ℕ → List (TradeRow W) → ℕ
  losses_from today [] = 0
  losses_from today (r ∷ rs) =
      let rest = losses_from today rs in
      if not (is_same_day (date_of (closing_time r)) today)
      then 0
      else if lt r.pnl_abs nought
      then suc rest
      else if lt nought r.pnl_abs
      then 0
      else rest

  unfoldable pub compute_consecutive_losses : Time → Tables W → ℕ
  unfolding losses_from fetch_recent_closed_trade_outcomes
  compute_consecutive_losses now t =
      losses_from (date_of now) (fetch_recent_closed_trade_outcomes t 100)

  -- the loop of `_compute_period_drawdown_pct`
  unfoldable pub period_loop : W → W → W → List W → W
  period_loop peak_equity current_equity max_drawdown [] = max_drawdown
  period_loop peak_equity current_equity max_drawdown (pnl ∷ pnls) =
      let current = add current_equity pnl in
      let peak = if lt peak_equity current then current else peak_equity in
      let drawdown = div (sub peak current) (max peak (lit 1 8)) in
      period_loop peak current (if lt max_drawdown drawdown then drawdown else max_drawdown) pnls

  abbrev pub starting_equity : Store W → Time → Tables W → W
  starting_equity store start t =
      max (add (reference_equity store) (sum_closed_pnl_abs_before store.sum t start)) (lit 1 8)

  unfoldable pub compute_period_drawdown_pct : Store W → Time → Time → Tables W → W
  unfolding period_loop sum_closed_pnl_abs_before fetch_closed_trade_pnl_series_between
  compute_period_drawdown_pct store start stop t =
      let equity = starting_equity store start t in
      let pnls = fetch_closed_trade_pnl_series_between t start stop in
      min (max (period_loop equity equity nought pnls) nought) (of_nat 1)

  unfoldable pub compute_daily_dd_pct : Store W → Time → Tables W → W
  unfolding compute_period_drawdown_pct
  compute_daily_dd_pct store now t =
      let start = day_start (date_of now) in
      compute_period_drawdown_pct store start (start + hours 24) t

  unfoldable pub compute_weekly_dd_pct : Store W → Time → Tables W → W
  unfolding compute_period_drawdown_pct
  compute_weekly_dd_pct store now t =
      let today = date_of now in
      let start = day_start (today - weekday today) in
      compute_period_drawdown_pct store start (start + hours 24 * 7) t

  -- the state that `load` finds after `ensure_initialized` has returned `state`
  abbrev or_state : BotState W → Option (BotState W) → BotState W
  or_state state none = state
  or_state state (some loaded) = loaded

  -- the state and the tables after `refresh_runtime_state`
  unfoldable pub refresh_runtime_state : Store W → Time → Tables W → BotState W × Tables W
  unfolding ensure_initialized sync_daily_metrics load save compute_consecutive_losses
      compute_daily_dd_pct compute_weekly_dd_pct get_open_positions_count
  refresh_runtime_state store now t =
      let ready = ensure_initialized store t in
      let t1 = sync_daily_metrics store (date_of now) ready.1 in
      let current = or_state ready.0 (load t1) in
      let refreshed = record current {
        open_positions_count = get_open_positions_count t1;
        consecutive_losses = compute_consecutive_losses now t1;
        daily_dd_pct = compute_daily_dd_pct store now t1;
        weekly_dd_pct = compute_weekly_dd_pct store now t1;
      } in
      (refreshed, sync_daily_metrics store (date_of now) (save refreshed t1))
