-- ===== src/Storage/Frame.antt =====
-- storage/state_store.py: the operations that leave safe mode and its log alone.
use btc_bot.Prelude.{
  ◌≡◌, refl, ap, ◌∙◌, ℕ, Option, some, String, inl, inr, Option-cases, Bool-cases,
}
use btc_bot.Prelude.Double.{Double, nought}
use btc_bot.Core.Models.{Time, BotState, SignalCandidate, ExecutableSignal, SettlementMetrics}
use btc_bot.Storage.Tables.{Tables}
use btc_bot.Storage.Queries.{
  date_of, insert_trade_log_open, close_position, update_trade_log_close,
  get_latest_position_for_signal, get_open_trade_log_for_position,
}
use btc_bot.Storage.Runtime.{Store, save, sync_daily_metrics, refresh_runtime_state}
use btc_bot.Storage.State.{mark_error, mark_healthy, get_governance_state, get_risk_state}
use btc_bot.Storage.Trades.{
  TradeLabels, or_price, opening_row, record_trade_open, settle_trade_close,
}
use btc_bot.Storage.SafeMode.{
  view_of, KeepsSafeMode, refresh_runtime_state-IsFresh, sync_daily_metrics-IsSynced,
}
use btc_bot.Storage.Reach.{after_open, after_close}

module _ {W : Type 0} where
  pub kept_trans :
      (t t' t'' : Tables W) → KeepsSafeMode t t' → KeepsSafeMode t' t'' → KeepsSafeMode t t''
  kept_trans t t' t'' h k = record {
    same_view = k.same_view ∙ h.same_view;
    same_events = k.same_events ∙ h.same_events;
  }

  pub kept_refl : (t : Tables W) → KeepsSafeMode t t
  kept_refl t = record { same_view = refl; same_events = refl }

  pub untouched :
      (t t' : Tables W)
      → t'.bot_state ≡ t.bot_state
      → t'.safe_mode_events ≡ t.safe_mode_events
      → KeepsSafeMode t t'
  untouched t t' e f = record { same_view = ap view_of e; same_events = f }

module _ {W : Type 0} ⦃d : Double W⦄ (store : Store W) where
  open d use {le}

  pub refresh-keeps :
      (now : Time) (t : Tables W) → KeepsSafeMode t (refresh_runtime_state store now t).1
  refresh-keeps now t =
      let f = refresh_runtime_state-IsFresh store now t in
      record { same_view = ap view_of f.stored ∙ f.same_view; same_events = f.same_events }

  -- A state with the safe mode of the refreshed one is saved over it.
  saved-keeps :
      (now : Time) (t : Tables W) (state : BotState W)
      → let fresh = refresh_runtime_state store now t in
        view_of (some state) ≡ view_of (some fresh.0) → KeepsSafeMode t (save state fresh.1)
  unfolding save
  saved-keeps now t state e =
      let f = refresh_runtime_state-IsFresh store now t in
      record { same_view = e ∙ f.same_view; same_events = f.same_events }

  pub mark_error-keeps :
      (message : String) (now : Time) (t : Tables W)
      → KeepsSafeMode t (mark_error store message now t)
  unfolding mark_error
  mark_error-keeps message now t = saved-keeps now t _ refl

  pub mark_healthy-keeps : (now : Time) (t : Tables W) → KeepsSafeMode t (mark_healthy store now t)
  unfolding mark_healthy
  mark_healthy-keeps now t = saved-keeps now t _ refl

  pub get_governance_state-keeps :
      (now : Time) (t : Tables W) → KeepsSafeMode t (get_governance_state store now t).1
  unfolding get_governance_state
  get_governance_state-keeps now t = refresh-keeps now t

  pub get_risk_state-keeps :
      (now : Time) (t : Tables W) → KeepsSafeMode t (get_risk_state store now t).1
  unfolding get_risk_state
  get_risk_state-keeps now t = refresh-keeps now t

  pub sync-keeps : (day : ℕ) (t : Tables W) → KeepsSafeMode t (sync_daily_metrics store day t)
  sync-keeps day t = (sync_daily_metrics-IsSynced store day t).kept

  pub record_trade_open-keeps :
      (labels : TradeLabels) (candidate : SignalCandidate W) (executable : ExecutableSignal W)
      (filled : Option W) (t : Tables W)
      → KeepsSafeMode t
          (after_open t (record_trade_open store labels candidate executable filled t))
  unfolding record_trade_open insert_trade_log_open
  record_trade_open-keeps labels candidate executable filled t =
      elim (Option-cases (get_latest_position_for_signal t executable.signal_id)) [
        | inl e ↦ rw (after_open, e) (kept_refl t)
        | inr (p, e) ↦
            let price = or_price p.entry_price filled in
            let t1 = insert_trade_log_open (opening_row labels candidate executable p price) t in
            rw (after_open, e)
              (elim (Bool-cases (le price nought)) [
                | inl e' ↦ rw (after_open, e') (kept_refl t)
                | inr e' ↦
                    rw (after_open, e')
                      (kept_trans t t1 _ (untouched t t1 refl refl)
                        (kept_trans t1 _ _ (saved-keeps p.opened_at t1 _ refl) (sync-keeps _ _)))
              ])
      ]

  pub settle_trade_close-keeps :
      (position_id : String) (settlement : SettlementMetrics W) (closed_at : Time) (t : Tables W)
      → KeepsSafeMode t
          (after_close t (settle_trade_close store position_id settlement closed_at t))
  unfolding settle_trade_close close_position update_trade_log_close
  settle_trade_close-keeps position_id settlement closed_at t =
      elim (Option-cases (get_open_trade_log_for_position t position_id)) [
        | inl e ↦ rw (after_close, e) (kept_refl t)
        | inr (r, e) ↦
            let t2 =
              update_trade_log_close r.trade_id settlement closed_at
                (close_position position_id closed_at t) in
            let t3 = sync_daily_metrics store (date_of r.opened_at) t2 in
            let t4 = sync_daily_metrics store (date_of closed_at) t3 in
            rw (after_close, e)
              (kept_trans t t4 _
                (kept_trans t t3 t4
                  (kept_trans t t2 t3 (untouched t t2 refl refl)
                    (sync-keeps (date_of r.opened_at) t2))
                  (sync-keeps (date_of closed_at) t3))
                (saved-keeps closed_at t4 _ refl))
      ]
