-- ===== src/Tests/Storage.antt =====
-- Examples for the store of the runtime state.
use btc_bot.Prelude.{◌≡◌, refl, true, false, leb, none, some, keep, foldl, length}
use btc_bot.Prelude.Double.{nought, ◌≼◌}
use btc_bot.Prelude.Fixed.{ℤ, fixed_double, fixed-IsOrdered}
use btc_bot.Core.Models.{hours, BotMode, SettlementMetrics, ExitReason}
use btc_bot.Storage.Tables.{Tables, no_rows}
use btc_bot.Storage.Queries.{
  insert_position, fetch_trade_log_rows_for_day, get_last_closed_loss_at, date_of,
  fetch_closed_trade_pnl_series_between,
}
use btc_bot.Storage.Runtime.{
  Store, compute_consecutive_losses, compute_daily_dd_pct, compute_weekly_dd_pct,
  compute_period_drawdown_pct, starting_equity,
}
use btc_bot.Storage.State.{
  set_safe_mode, get_governance_state, get_risk_state, get_open_trade_records,
}
use btc_bot.Storage.Trades.{TradeLabels, record_trade_open, settle_trade_close}
use btc_bot.Storage.SafeMode.{view}
use btc_bot.Storage.Reach.{Reachable, after_open, after_close}
use btc_bot.Storage.Attempts.{attempts}
use btc_bot.Storage.Sound.{IsSound, Reachable-IsSound}
use btc_bot.Storage.OpenTrades.{is_other}
use btc_bot.Storage.Closing.{settle_trade_close-records}
use btc_bot.Storage.Measures.{get_governance_state-current, compute_period_drawdown_pct-eq}
use btc_bot.Backtest.Performance.{max_drawdown_pct}
use btc_bot.Tests.Samples.{whole, signal, candidate, position}

-- a database that takes one event only
abbrev pub store : Store ℤ
store = record {
  mode = BotMode.paper;
  given_equity = whole 10_000;
  sum = foldl fixed_double.add nought;
  takes_event = λ t e. leb (length t.safe_mode_events) 0;
}

abbrev labels : TradeLabels
labels = record { trade_id = "trd-1"; schema_version = "v1"; config_hash = "h" }

abbrev settlement : SettlementMetrics ℤ
settlement = record {
  exit_price = whole 59_900;
  pnl_abs = fixed_double.neg (whole 50);
  pnl_r = fixed_double.neg (whole 1);
  mae = whole 50;
  mfe = whole 0;
  exit_reason = ExitReason.sl;
  funding_paid = whole 0;
}

-- An open trade of the sample position, in safe mode since hour 11, and the same after it is settled.
abbrev opened : Tables ℤ
opened =
    after_open (insert_position position no_rows)
      (record_trade_open store labels candidate signal none (insert_position position no_rows))

abbrev guarded : Tables ℤ
guarded = (set_safe_mode store true (some "daily_dd>0.0300") (hours 11) opened).1

abbrev settled : Tables ℤ
settled = after_close guarded (settle_trade_close store "p-1" settlement (hours 12) guarded)

guarded-Reachable : Reachable store guarded
guarded-Reachable =
    Reachable.safe_mode_set
      (Reachable.trade_opened (Reachable.position_persisted Reachable.start position) labels
        candidate signal none)
      true (some "daily_dd>0.0300") (hours 11)

settled-Reachable : Reachable store settled
settled-Reachable = Reachable.trade_closed guarded-Reachable "p-1" settlement (hours 12)

open_before : length (get_open_trade_records guarded) ≡ 1
unfolding get_open_trade_records set_safe_mode record_trade_open insert_position
open_before = refl

open_after : length (get_open_trade_records settled) ≡ 0
unfolding get_open_trade_records settle_trade_close set_safe_mode record_trade_open insert_position
open_after = refl

still_safe : view settled ≡ (true, some (hours 11))
unfolding settle_trade_close set_safe_mode record_trade_open insert_position
still_safe = refl

-- Safe mode is cleared, but the event of it is not written.
abbrev cleared : Tables ℤ
cleared = (set_safe_mode store false none (hours 13) settled).1

cleared-Reachable : Reachable store cleared
cleared-Reachable = Reachable.safe_mode_set settled-Reachable false none (hours 13)

gap : (view cleared ≡ (false, none)) × (length cleared.safe_mode_events ≡ 1)
unfolding settle_trade_close set_safe_mode record_trade_open insert_position
gap = (refl, refl)

Reachable-IsSound_example : IsSound store (attempts store cleared-Reachable) cleared
Reachable-IsSound_example = Reachable-IsSound store cleared cleared-Reachable

settle_trade_close-records_example :
    get_open_trade_records settled ≡ keep (is_other "p-1") (get_open_trade_records guarded)
settle_trade_close-records_example =
    settle_trade_close-records store "p-1" settlement (hours 12) guarded guarded-Reachable

get_governance_state-current_example :
    let g = (get_governance_state store (hours 13) settled).0 in
    let r = (get_risk_state store (hours 13) settled).0 in
    (g.trades_today ≡ length (fetch_trade_log_rows_for_day settled (date_of (hours 13))))
    × (g.consecutive_losses ≡ compute_consecutive_losses (hours 13) settled)
    × (g.daily_dd_pct ≡ compute_daily_dd_pct store (hours 13) settled)
    × (g.weekly_dd_pct ≡ compute_weekly_dd_pct store (hours 13) settled)
    × (g.last_loss_at ≡ get_last_closed_loss_at settled)
    × (r.consecutive_losses ≡ g.consecutive_losses)
    × (r.daily_dd_pct ≡ g.daily_dd_pct)
    × (r.weekly_dd_pct ≡ g.weekly_dd_pct)
get_governance_state-current_example = get_governance_state-current store (hours 13) settled

one_loss : compute_consecutive_losses (hours 13) settled ≡ 1
unfolding compute_consecutive_losses settle_trade_close set_safe_mode record_trade_open
    insert_position
one_loss = refl

compute_period_drawdown_pct-eq_example :
    let dd = compute_period_drawdown_pct store 0 (hours 24) settled in
    (dd
      ≡ max_drawdown_pct
          (fetch_closed_trade_pnl_series_between settled 0 (hours 24))
          (starting_equity store 0 settled))
    × (nought ≼ dd)
    × (dd ≼ fixed_double.of_nat 1)
compute_period_drawdown_pct-eq_example =
    compute_period_drawdown_pct-eq store fixed-IsOrdered 0 (hours 24) settled refl
