-- ===== src/Storage/Sound.antt =====
-- storage/state_store.py: what holds of the tables that the calls of the store reach.
use btc_bot.Prelude.{
  ◌≡◌, refl, sym, ap, ◌∙◌, ℕ, Bool, true, not, Option, some, String, List, [], ◌∷◌, ◌++◌, keep, All,
  inl, inr, Option-cases, Bool-cases,
}
use text.Mathlib.Text.{◌==◌}
use btc_bot.Prelude.Double.{Double, nought}
use btc_bot.Core.Models.{Time, BotState, SignalCandidate, ExecutableSignal, SettlementMetrics}
use btc_bot.Storage.Tables.{Tables, TradeRow, SafeModeEvent}
use btc_bot.Storage.Queries.{
  date_of, insert_position, insert_trade_log_open, close_position, update_trade_log_close,
  get_latest_position_for_signal, get_open_trade_log_for_position,
}
use btc_bot.Storage.Runtime.{
  Store, save, ensure_initialized, sync_daily_metrics, refresh_runtime_state,
}
use btc_bot.Storage.Ids.{
  ids, IsDistinct, IsDistinct-snoc, IsDistinct-ids-keep, others_differ, ids-snoc, ids-settled,
}
use btc_bot.Storage.State.{
  event_of, attempt, set_safe_mode, switched, get_governance_state, get_risk_state, mark_error,
  mark_healthy,
}
use btc_bot.Storage.Trades.{
  TradeLabels, or_price, opening_row, record_trade_open, settle_trade_close,
}
use btc_bot.Storage.Attempts.{asked, taken, asked_snoc, taken_snoc, all_taken, attempts}
use btc_bot.Storage.Reach.{Reachable, after_open, after_close}
use btc_bot.Storage.SafeMode.{
  view_of, view, KeepsSafeMode, replay_event, replay, IsFresh, refresh_runtime_state-IsFresh,
  sync_daily_metrics-IsSynced, ensure_initialized-IsSynced,
}

module _ {W : Type 0} ⦃d : Double W⦄ (store : Store W) where
  open d use {le}

  -- The stored safe mode is that of all the events of `es`, the log is those that were taken, and no
  -- two trades share an id.
  pub record IsSound (es : List (SafeModeEvent × Bool)) (t : Tables W) : Type 0 where
    pub replayed : view t ≡ replay (asked es)
    pub logged : t.safe_mode_events ≡ taken es
    pub distinct : IsDistinct (ids t.trade_log)

  kept-IsSound :
      {es : List (SafeModeEvent × Bool)} (t t' : Tables W)
      → KeepsSafeMode t t'
      → ids t'.trade_log ≡ ids t.trade_log
      → IsSound es t
      → IsSound es t'
  kept-IsSound t t' k e h = record {
    replayed = k.same_view ∙ h.replayed;
    logged = k.same_events ∙ h.logged;
    distinct = rw e (h.distinct);
  }

  -- A state with the safe mode of the refreshed one is saved over it.
  saved-IsSound :
      {es : List (SafeModeEvent × Bool)} (t : Tables W) (fresh : BotState W × Tables W)
      (state : BotState W)
      → IsFresh store t fresh
      → view_of (some state) ≡ view_of (some fresh.0)
      → IsSound es t
      → IsSound es (save state fresh.1)
  unfolding save
  saved-IsSound t fresh state f e h =
      kept-IsSound t (save state fresh.1)
        (record { same_view = e ∙ f.same_view; same_events = f.same_events }) (ap ids f.same_trades)
        h

  refreshed-IsSound :
      {es : List (SafeModeEvent × Bool)} (now : Time) (t : Tables W)
      → IsSound es t
      → IsSound es ((refresh_runtime_state store now t).1)
  refreshed-IsSound now t h =
      let f = refresh_runtime_state-IsFresh store now t in
      kept-IsSound t ((refresh_runtime_state store now t).1)
        (record { same_view = ap view_of f.stored ∙ f.same_view; same_events = f.same_events })
        (ap ids f.same_trades) h

  synced-IsSound :
      {es : List (SafeModeEvent × Bool)} (day : ℕ) (t : Tables W)
      → IsSound es t
      → IsSound es (sync_daily_metrics store day t)
  synced-IsSound day t h =
      let s = sync_daily_metrics-IsSynced store day t in
      kept-IsSound t (sync_daily_metrics store day t) s.kept (ap ids s.same_trades) h

  -- Each operation, in the order of the constructors of `Reachable`
  initialized-IsSound :
      {es : List (SafeModeEvent × Bool)} (t : Tables W)
      → IsSound es t
      → IsSound es ((ensure_initialized store t).1)
  initialized-IsSound t h =
      let s = (ensure_initialized-IsSynced store t).0 in
      kept-IsSound t ((ensure_initialized store t).1) s.kept (ap ids s.same_trades) h

  -- The event that is tried does to the replayed view what the call does to the stored one, and it
  -- joins the log if it is taken.
  switched-IsSound :
      (es : List (SafeModeEvent × Bool)) (enabled : Bool) (reason : Option String) (now : Time)
      (t : Tables W) (fresh : BotState W × Tables W)
      → IsFresh store t fresh
      → IsSound es t
      → IsSound
          (es ++ (attempt store enabled reason now fresh ∷ []))
          ((switched store enabled reason now fresh).1)
  unfolding switched save
  switched-IsSound es enabled reason now t fresh f h =
      let a = attempt store enabled reason now fresh in
      let before : view_of (some fresh.0) ≡ replay (asked es) = f.same_view ∙ h.replayed in
      let same : fresh.1.safe_mode_events ≡ taken es = f.same_events ∙ h.logged in
      record {
        replayed = elim (Bool-cases enabled) [
          | inl e ↦
              rw (asked_snoc es a, e) (ap (λ v. replay_event v (event_of true reason now)) before)
          | inr e ↦ rw (asked_snoc es a, e) refl
        ];
        logged = rw (taken_snoc es a.0 a.1, same) refl;
        distinct = rw f.same_trades h.distinct;
      }

  inserted-IsSound :
      {es : List (SafeModeEvent × Bool)} (row : TradeRow W) (t : Tables W)
      → IsSound es t
      → IsSound es (insert_trade_log_open row t)
  unfolding insert_trade_log_open
  inserted-IsSound row t h =
      let others = keep (λ r. not (r.trade_id == row.trade_id)) t.trade_log in
      record {
        replayed = h.replayed;
        logged = h.logged;
        distinct = rw (ids-snoc others row) (
            IsDistinct-snoc (ids others) row.trade_id (IsDistinct-ids-keep _ t.trade_log h.distinct)
              (others_differ row.trade_id t.trade_log));
      }

  opened-IsSound :
      {es : List (SafeModeEvent × Bool)} (labels : TradeLabels) (candidate : SignalCandidate W)
      (executable : ExecutableSignal W) (filled : Option W) (t : Tables W)
      → IsSound es t
      → IsSound es (after_open t (record_trade_open store labels candidate executable filled t))
  unfolding record_trade_open
  opened-IsSound labels candidate executable filled t h =
      elim (Option-cases (get_latest_position_for_signal t executable.signal_id)) [
        | inl e ↦ rw (after_open, e) h
        | inr (p, e) ↦
            let price = or_price p.entry_price filled in
            let t1 = insert_trade_log_open (opening_row labels candidate executable p price) t in
            let h1 = inserted-IsSound (opening_row labels candidate executable p price) t h in
            let fresh = refresh_runtime_state store p.opened_at t1 in
            let f = refresh_runtime_state-IsFresh store p.opened_at t1 in
            rw (after_open, e)
              (elim (Bool-cases (le price nought)) [
                | inl e' ↦ rw (after_open, e') h
                | inr e' ↦ rw e' (synced-IsSound _ _ (saved-IsSound t1 fresh _ f refl h1))
              ])
      ]

  closed-IsSound :
      {es : List (SafeModeEvent × Bool)} (position_id : String) (settlement : SettlementMetrics W)
      (closed_at : Time) (t : Tables W)
      → IsSound es t
      → IsSound es (after_close t (settle_trade_close store position_id settlement closed_at t))
  unfolding settle_trade_close close_position update_trade_log_close
  closed-IsSound {es = es} position_id settlement closed_at t h =
      elim (Option-cases (get_open_trade_log_for_position t position_id)) [
        | inl e ↦ rw (after_close, e) h
        | inr (r, e) ↦
            let t2 =
              update_trade_log_close r.trade_id settlement closed_at
                (close_position position_id closed_at t) in
            let h2 : IsSound es t2 = record {
              replayed = h.replayed;
              logged = h.logged;
              distinct = rw (ids-settled r.trade_id settlement closed_at t.trade_log) h.distinct;
            } in
            let h4 =
              synced-IsSound (date_of closed_at) _ (synced-IsSound (date_of r.opened_at) t2 h2) in
            rw (after_close, e)
              (saved-IsSound _ _ _ (refresh_runtime_state-IsFresh store closed_at _) refl h4)
      ]

  marked-IsSound :
      {es : List (SafeModeEvent × Bool)} (message : String) (now : Time) (t : Tables W)
      → IsSound es t
      → IsSound es (mark_error store message now t) × IsSound es (mark_healthy store now t)
  unfolding mark_error mark_healthy
  marked-IsSound message now t h =
      let fresh = refresh_runtime_state store now t in
      let f = refresh_runtime_state-IsFresh store now t in
      (saved-IsSound t fresh _ f refl h, saved-IsSound t fresh _ f refl h)

  -- After any calls of the store on an empty database: the stored safe mode, with the time at which
  -- it was entered, is what the events of all the calls of `set_safe_mode` replay to; the log in the
  -- database is those of them that it took, in order; and no two trades share an id.
  pub Reachable-IsSound : (t : Tables W) (r : Reachable store t) → IsSound (attempts store r) t
  unfolding attempts insert_position set_safe_mode get_governance_state get_risk_state
  Reachable-IsSound t Reachable.start = record { replayed = refl; logged = refl; distinct = tt }
  Reachable-IsSound t (Reachable.initialized {t = t₀} r) =
      initialized-IsSound t₀ (Reachable-IsSound t₀ r)
  Reachable-IsSound t (Reachable.metrics_synced {t = t₀} r day) =
      synced-IsSound day t₀ (Reachable-IsSound t₀ r)
  Reachable-IsSound t (Reachable.refreshed {t = t₀} r now) =
      refreshed-IsSound now t₀ (Reachable-IsSound t₀ r)
  Reachable-IsSound t (Reachable.safe_mode_set {t = t₀} r enabled reason now) =
      switched-IsSound (attempts store r) enabled reason now t₀ (refresh_runtime_state store now t₀)
        (refresh_runtime_state-IsFresh store now t₀) (Reachable-IsSound t₀ r)
  Reachable-IsSound t (Reachable.governance_read {t = t₀} r now) =
      refreshed-IsSound now t₀ (Reachable-IsSound t₀ r)
  Reachable-IsSound t (Reachable.risk_read {t = t₀} r now) =
      refreshed-IsSound now t₀ (Reachable-IsSound t₀ r)
  Reachable-IsSound t (Reachable.error_marked {t = t₀} r message now) =
      (marked-IsSound message now t₀ (Reachable-IsSound t₀ r)).0
  Reachable-IsSound t (Reachable.healthy_marked {t = t₀} r now) =
      (marked-IsSound "" now t₀ (Reachable-IsSound t₀ r)).1
  Reachable-IsSound t (Reachable.position_persisted {t = t₀} r p) =
      let h = Reachable-IsSound t₀ r in
      record { replayed = h.replayed; logged = h.logged; distinct = h.distinct }
  Reachable-IsSound t (Reachable.trade_opened {t = t₀} r labels candidate executable filled) =
      opened-IsSound labels candidate executable filled t₀ (Reachable-IsSound t₀ r)
  Reachable-IsSound t (Reachable.trade_closed {t = t₀} r position_id settlement closed_at) =
      closed-IsSound position_id settlement closed_at t₀ (Reachable-IsSound t₀ r)

  -- If the database took every event, the log alone replays to the stored safe mode.
  log_replays :
      (t : Tables W) (r : Reachable store t)
      → All (λ a. a.1 ≡ true) (attempts store r)
      → view t ≡ replay t.safe_mode_events
  log_replays t r h =
      let s = Reachable-IsSound t r in
      s.replayed ∙ ap replay (sym (s.logged ∙ all_taken (attempts store r) h))
