-- ===== src/Storage/Measures.antt =====
-- storage/state_store.py: what the governance and the risk engine are told.
use btc_bot.Prelude.{
  ◌≡◌, refl, ap, ◌∙◌, arith, ℕ, true, not, some, List, [], ◌∷◌, keep, keep-append, length, inl, inr,
  Bool-cases,
}
use btc_bot.Prelude.Double.{Double, IsOrdered, nought, max, ◌≼◌}
use btc_bot.Core.Models.{Time}
use btc_bot.Storage.Tables.{Tables, DailyMetrics}
use btc_bot.Storage.Queries.{
  date_of, is_same_day, get_daily_metrics, upsert_daily_metrics, fetch_trade_log_rows_for_day,
  get_last_closed_loss_at, fetch_closed_trade_pnl_series_between, sum_closed_pnl_abs_before,
  fetch_recent_closed_trade_outcomes,
}
use btc_bot.Storage.Runtime.{
  Store, save, ensure_initialized, sync_daily_metrics, refresh_runtime_state, period_loop,
  starting_equity, compute_period_drawdown_pct, compute_consecutive_losses, compute_daily_dd_pct,
  compute_weekly_dd_pct,
}
use btc_bot.Storage.State.{trades_of, get_governance_state, get_risk_state}
use btc_bot.Storage.SafeMode.{
  ensure_initialized-IsSynced, sync_daily_metrics-IsSynced, refresh_runtime_state-IsFresh,
}
use btc_bot.Backtest.Drawdown.{max_drawdown_pct_bounds}
use btc_bot.Backtest.Performance.{peak_after, drawdown_at, drawdown_loop, max_drawdown_pct}

module _ {W : Type 0} where
  nothing_left :
      (day : ℕ) (xs : List (ℕ × DailyMetrics W))
      → keep (λ x. is_same_day x.0 day) (keep (λ x. not (is_same_day x.0 day)) xs) ≡ []
  nothing_left day [] = refl
  nothing_left day (x ∷ xs) = elim (Bool-cases (is_same_day x.0 day)) [
    | inl e ↦ rw e (nothing_left day xs)
    | inr e ↦ rw (e, e) (nothing_left day xs)
  ]

  -- The metrics of a day are those that were stored last.
  get_daily_metrics-upsert :
      (day : ℕ) (m : DailyMetrics W) (t : Tables W)
      → get_daily_metrics (upsert_daily_metrics day m t) day ≡ some m
  unfolding get_daily_metrics upsert_daily_metrics
  get_daily_metrics-upsert day m t =
      let same : is_same_day day day ≡ true = ground arith in
      let others = keep (λ x. not (is_same_day x.0 day)) t.daily_metrics in
      rw
        (
          keep-append (λ x. is_same_day x.0 day) others ((day, m) ∷ []),
          nothing_left day t.daily_metrics,
          same,
        )
        refl

module _ {W : Type 0} ⦃d : Double W⦄ (store : Store W) where
  -- The measures depend on the trade log only.
  record IsMeasured (now : Time) (t t' : Tables W) : Type 0 where
    same_losses : compute_consecutive_losses now t' ≡ compute_consecutive_losses now t
    same_daily : compute_daily_dd_pct store now t' ≡ compute_daily_dd_pct store now t
    same_weekly : compute_weekly_dd_pct store now t' ≡ compute_weekly_dd_pct store now t
    same_loss : get_last_closed_loss_at t' ≡ get_last_closed_loss_at t
    same_rows :
        fetch_trade_log_rows_for_day t' (date_of now) ≡ fetch_trade_log_rows_for_day t (date_of now)

  measured : (now : Time) (t t' : Tables W) → t'.trade_log ≡ t.trade_log → IsMeasured now t t'
  unfolding compute_consecutive_losses compute_daily_dd_pct compute_weekly_dd_pct
      compute_period_drawdown_pct get_last_closed_loss_at fetch_trade_log_rows_for_day
      fetch_recent_closed_trade_outcomes sum_closed_pnl_abs_before
      fetch_closed_trade_pnl_series_between
  measured now t t' e = record {
    same_losses = rw e refl;
    same_daily = rw e refl;
    same_weekly = rw e refl;
    same_loss = rw e refl;
    same_rows = rw e refl;
  }

  pub refreshed_measures :
      (now : Time) (t : Tables W)
      → let s = (refresh_runtime_state store now t).0 in
        (s.consecutive_losses ≡ compute_consecutive_losses now t)
        × (s.daily_dd_pct ≡ compute_daily_dd_pct store now t)
        × (s.weekly_dd_pct ≡ compute_weekly_dd_pct store now t)
  unfolding refresh_runtime_state
  refreshed_measures now t =
      let t0 = (ensure_initialized store t).1 in
      let t1 = sync_daily_metrics store (date_of now) t0 in
      let e =
        (sync_daily_metrics-IsSynced store (date_of now) t0).same_trades
        ∙ (ensure_initialized-IsSynced store t).0.same_trades in
      let m = measured now t t1 e in (m.same_losses, m.same_daily, m.same_weekly)

  synced_count :
      (day : ℕ) (t : Tables W)
      → (m : DailyMetrics W) × (get_daily_metrics (sync_daily_metrics store day t) day ≡ some m)
        × (m.trades_count ≡ length (fetch_trade_log_rows_for_day t day))
  unfolding sync_daily_metrics
  synced_count day t = (_, get_daily_metrics-upsert day _ _, refl)

  refreshed_count :
      (now : Time) (t : Tables W)
      → (m : DailyMetrics W) × (get_daily_metrics
            (refresh_runtime_state store now t).1
            (date_of now)
          ≡ some m)
        × (m.trades_count ≡ length (fetch_trade_log_rows_for_day t (date_of now)))
  unfolding refresh_runtime_state save
  refreshed_count now t =
      let t0 = (ensure_initialized store t).1 in
      let t1 = sync_daily_metrics store (date_of now) t0 in
      let t2 = save (refresh_runtime_state store now t).0 t1 in
      let e =
        (sync_daily_metrics-IsSynced store (date_of now) t0).same_trades
        ∙ (ensure_initialized-IsSynced store t).0.same_trades in
      let (m, stored, count) = synced_count (date_of now) t2 in
      (m, stored, count ∙ ap length (measured now t t2 e).same_rows)

  -- The number of trades of the day that the governance is told is the number of the day's rows in
  -- the trade log, read back from the metrics that were stored for the day; the losing streak and
  -- the drawdowns, for the governance as for the risk engine, and the last loss are computed from
  -- the trade log of the same moment, whatever was stored before.
  pub get_governance_state-current :
      (now : Time) (t : Tables W)
      → let g = (get_governance_state store now t).0 in
        let r = (get_risk_state store now t).0 in
        (g.trades_today ≡ length (fetch_trade_log_rows_for_day t (date_of now)))
        × (g.consecutive_losses ≡ compute_consecutive_losses now t)
        × (g.daily_dd_pct ≡ compute_daily_dd_pct store now t)
        × (g.weekly_dd_pct ≡ compute_weekly_dd_pct store now t)
        × (g.last_loss_at ≡ get_last_closed_loss_at t)
        × (r.consecutive_losses ≡ g.consecutive_losses)
        × (r.daily_dd_pct ≡ g.daily_dd_pct)
        × (r.weekly_dd_pct ≡ g.weekly_dd_pct)
  unfolding get_governance_state get_risk_state
  get_governance_state-current now t =
      let (losses, daily, weekly) = refreshed_measures now t in
      let f = refresh_runtime_state-IsFresh store now t in
      let m = measured now t ((refresh_runtime_state store now t).1) f.same_trades in
      let (metrics, stored, count) = refreshed_count now t in
      (ap trades_of stored ∙ count, losses, daily, weekly, m.same_loss, refl, refl, refl)

  period_loop-eq :
      (peak equity max_drawdown : W) (pnls : List W)
      → period_loop peak equity max_drawdown pnls ≡ drawdown_loop peak equity max_drawdown pnls
  unfolding period_loop drawdown_loop
  period_loop-eq peak equity max_drawdown [] = refl
  period_loop-eq peak equity max_drawdown (pnl ∷ pnls) =
      let equity' = d.add equity pnl in
      let peak' = peak_after peak equity' in
      period_loop-eq peak' equity' (max max_drawdown (drawdown_at peak' equity')) pnls

  -- The drawdown of a period that governs trading is the maximal drawdown of the backtest's report
  -- on the trades that were closed in the period, from the equity before it; so it is between 0 and
  -- 1 if 0 is not above 1.
  pub compute_period_drawdown_pct-eq :
      (laws : IsOrdered W) (start stop : Time) (t : Tables W)
      → nought ≼ d.of_nat 1
      → let dd = compute_period_drawdown_pct store start stop t in
        (dd
          ≡ max_drawdown_pct
              (fetch_closed_trade_pnl_series_between t start stop)
              (starting_equity store start t))
        × (nought ≼ dd)
        × (dd ≼ d.of_nat 1)
  unfolding compute_period_drawdown_pct max_drawdown_pct
  compute_period_drawdown_pct-eq laws start stop t unit =
      let equity = starting_equity store start t in
      let pnls = fetch_closed_trade_pnl_series_between t start stop in
      let e = period_loop-eq equity equity nought pnls in
      let (low, high, _) = max_drawdown_pct_bounds laws pnls equity unit in
      (rw e refl, rw e low, rw e high)
