-- ===== src/Storage/Queries.antt =====
-- storage/repositories.py: the queries and updates, as functions of the tables. Rows that tie in an
-- ORDER BY come in the order of insertion.
use btc_bot.Prelude.{
  ℕ, Bool, true, false, not, ◌&&◌, Option, none, some, String, List, [], ◌∷◌, ◌++◌, map, keep,
  length, ltb, leb, if◌then◌else◌, is_some, ◌/◌,
}
use text.Mathlib.Text.{◌==◌}
use btc_bot.Prelude.Double.{Double, nought}
use btc_bot.Prelude.Sorting.{sort, before}
use btc_bot.Prelude.Tails.{first, concat, take}
use btc_bot.Core.Models.{Time, hours, Position, PositionStatus, SettlementMetrics}
use btc_bot.Storage.Tables.{Tables, TradeRow, DailyMetrics}

-- `status IN ('OPEN', 'PARTIAL')`
abbrev pub is_active : PositionStatus → Bool
is_active PositionStatus.opened = true
is_active PositionStatus.partial = true
is_active PositionStatus.closed = false

-- `DATE(t)`
abbrev pub date_of : Time → ℕ
date_of t = t / hours 24

abbrev pub is_same_day : ℕ → ℕ → Bool
is_same_day a b = leb a b && leb b a

-- `closed_at IS NULL`
abbrev pub is_unset : {A : Type 0} → Option A → Bool
is_unset none = true
is_unset (some _) = false

-- the values that are there
abbrev pub closing_or : Time → Option Time → Time
closing_or t none = t
closing_or t (some at) = at

abbrev pub closes_within : Time → Time → Option Time → Bool
closes_within start stop none = false
closes_within start stop (some at) = leb start at && ltb at stop

module _ {W : Type 0} where
  abbrev pub active_positions : Tables W → List (Position W)
  active_positions t = keep (λ p. is_active p.status) t.positions

  unfoldable pub get_open_positions_count : Tables W → ℕ
  get_open_positions_count t = length (active_positions t)

  unfoldable pub fetch_open_positions : Tables W → List (Position W)
  unfolding sort
  fetch_open_positions t = sort (before (λ p. p.opened_at)) (active_positions t)

  -- the newest position of a signal
  unfoldable pub get_latest_position_for_signal : Tables W → String → Option (Position W)
  unfolding sort
  get_latest_position_for_signal t signal_id =
      first (
        sort (λ a b. ltb b.opened_at a.opened_at)
          (keep (λ p. p.signal_id == signal_id) t.positions))

  unfoldable pub insert_position : Position W → Tables W → Tables W
  insert_position p t = record t { positions = t.positions ++ (p ∷ []) }

  -- the trade ids of a position's open trades, with the position
  abbrev pub open_trades_of : List (TradeRow W) → Position W → List (String × Position W)
  open_trades_of trades p =
      map (λ r. (r.trade_id, p))
        (keep (λ r. (r.position_id == p.position_id) && is_unset r.closed_at) trades)

  unfoldable pub fetch_open_trade_positions : Tables W → List (String × Position W)
  unfolding sort
  fetch_open_trade_positions t =
      sort (before (λ r. r.1.opened_at))
        (concat (map (open_trades_of t.trade_log) (active_positions t)))

  unfoldable pub insert_trade_log_open : TradeRow W → Tables W → Tables W
  insert_trade_log_open row t = record t {
    trade_log = keep (λ r. not (r.trade_id == row.trade_id)) t.trade_log ++ (row ∷ []);
  }

  abbrev pub closed_at_time : String → Time → Position W → Position W
  closed_at_time position_id closed_at p =
      if p.position_id == position_id
      then record p { status = PositionStatus.closed; updated_at = closed_at }
      else p

  unfoldable pub close_position : String → Time → Tables W → Tables W
  close_position position_id closed_at t = record t {
    positions = map (closed_at_time position_id closed_at) t.positions;
  }

  abbrev pub settled : SettlementMetrics W → Time → TradeRow W → TradeRow W
  settled m closed_at r = record r {
    closed_at = some closed_at;
    exit_price = some m.exit_price;
    pnl_abs = m.pnl_abs;
    pnl_r = m.pnl_r;
    mae = m.mae;
    mfe = m.mfe;
    exit_reason = some m.exit_reason;
    funding_paid = m.funding_paid;
  }

  abbrev pub settled_if : String → SettlementMetrics W → Time → TradeRow W → TradeRow W
  settled_if trade_id m closed_at r =
      if (r.trade_id == trade_id) && is_unset r.closed_at then settled m closed_at r else r

  unfoldable pub update_trade_log_close : String → SettlementMetrics W → Time → Tables W → Tables W
  update_trade_log_close trade_id m closed_at t = record t {
    trade_log = map (settled_if trade_id m closed_at) t.trade_log;
  }

  -- the newest open trade of a position
  unfoldable pub get_open_trade_log_for_position : Tables W → String → Option (TradeRow W)
  unfolding sort
  get_open_trade_log_for_position t position_id = first (
      sort (λ a b. ltb b.opened_at a.opened_at)
        (keep (λ r. (r.position_id == position_id) && is_unset r.closed_at) t.trade_log))

  unfoldable pub get_daily_metrics : Tables W → ℕ → Option (DailyMetrics W)
  get_daily_metrics t day = first (map (λ x. x.1) (keep (λ x. is_same_day x.0 day) t.daily_metrics))

  unfoldable pub upsert_daily_metrics : ℕ → DailyMetrics W → Tables W → Tables W
  upsert_daily_metrics day m t = record t {
    daily_metrics = keep (λ x. not (is_same_day x.0 day)) t.daily_metrics ++ ((day, m) ∷ []);
  }

  unfoldable pub fetch_trade_log_rows_for_day : Tables W → ℕ → List (TradeRow W)
  unfolding sort
  fetch_trade_log_rows_for_day t day =
      sort (before (λ r. r.opened_at))
        (keep (λ r. is_same_day (date_of r.opened_at) day) t.trade_log)

  abbrev pub closing_time : TradeRow W → Time
  closing_time r = closing_or r.opened_at r.closed_at

  -- the closed trades, the newest first
  unfoldable pub fetch_recent_closed_trade_outcomes : Tables W → ℕ → List (TradeRow W)
  unfolding sort
  fetch_recent_closed_trade_outcomes t limit = take limit (
      sort (λ a b. ltb (closing_time b) (closing_time a))
        (keep (λ r. is_some r.closed_at) t.trade_log))

  unfoldable pub fetch_closed_trade_pnl_series_between : Tables W → Time → Time → List W
  unfolding sort
  fetch_closed_trade_pnl_series_between t start stop =
      map (λ r. r.pnl_abs)
        (sort (before closing_time) (keep (λ r. closes_within start stop r.closed_at) t.trade_log))

  -- `sum` is SQL's SUM, with 0.0 for no rows.
  unfoldable pub sum_closed_pnl_abs_before : (List W → W) → Tables W → Time → W
  sum_closed_pnl_abs_before sum t stop =
      sum (map (λ r. r.pnl_abs) (keep (λ r. closes_within 0 stop r.closed_at) t.trade_log))

  unfoldable pub get_last_closed_loss_at : ⦃d : Double W⦄ → Tables W → Option Time
  unfolding sort
  get_last_closed_loss_at ⦃d⦄ t = first (
      map closing_time (
        sort (λ a b. ltb (closing_time b) (closing_time a))
          (keep (λ r. is_some r.closed_at && d.lt r.pnl_abs nought) t.trade_log)))
