-- ===== src/Storage/Reach.antt =====
-- storage/state_store.py: the tables that calls of the store lead to.
use btc_bot.Prelude.{ℕ, Bool, Option, String, inl, inr, ◌⊎◌}
use btc_bot.Prelude.Double.{Double}
use btc_bot.Core.Models.{Time, Position, SignalCandidate, ExecutableSignal, SettlementMetrics}
use btc_bot.Storage.Tables.{Tables, no_rows}
use btc_bot.Storage.Queries.{insert_position}
use btc_bot.Storage.Runtime.{Store, ensure_initialized, sync_daily_metrics, refresh_runtime_state}
use btc_bot.Storage.State.{
  set_safe_mode, get_governance_state, get_risk_state, mark_error, mark_healthy,
}
use btc_bot.Storage.Trades.{StoreError, TradeLabels, record_trade_open, settle_trade_close}

module _ {W : Type 0} where
  -- An error leaves the tables as they were.
  abbrev pub after_open : Tables W → StoreError ⊎ (W × Tables W) → Tables W
  after_open t (inl e) = t
  after_open t (inr (price, t')) = t'

  abbrev pub after_close : Tables W → StoreError ⊎ Tables W → Tables W
  after_close t (inl e) = t
  after_close t (inr t') = t'

module _ {W : Type 0} ⦃d : Double W⦄ (store : Store W) where
  -- The tables after calls of the store and of the paper engine's persister on an empty database.
  pub data Reachable : Tables W → Type 0 where
    start : Reachable no_rows
    initialized : {t : Tables W} → Reachable t → Reachable ((ensure_initialized store t).1)
    metrics_synced :
        {t : Tables W} → Reachable t → (day : ℕ) → Reachable (sync_daily_metrics store day t)
    refreshed :
        {t : Tables W}
        → Reachable t
        → (now : Time) → Reachable ((refresh_runtime_state store now t).1)
    safe_mode_set :
        {t : Tables W}
        → Reachable t
        → (enabled : Bool) (reason : Option String) (now : Time)
        → Reachable ((set_safe_mode store enabled reason now t).1)
    governance_read :
        {t : Tables W}
        → Reachable t
        → (now : Time) → Reachable ((get_governance_state store now t).1)
    risk_read :
        {t : Tables W} → Reachable t → (now : Time) → Reachable ((get_risk_state store now t).1)
    error_marked :
        {t : Tables W}
        → Reachable t
        → (message : String) (now : Time) → Reachable (mark_error store message now t)
    healthy_marked :
        {t : Tables W} → Reachable t → (now : Time) → Reachable (mark_healthy store now t)
    position_persisted :
        {t : Tables W} → Reachable t → (p : Position W) → Reachable (insert_position p t)
    trade_opened :
        {t : Tables W}
        → Reachable t
        → (labels : TradeLabels) (candidate : SignalCandidate W) (executable : ExecutableSignal W)
          (filled_entry_price : Option W)
        → Reachable (
            after_open t (record_trade_open store labels candidate executable filled_entry_price t))
    trade_closed :
        {t : Tables W}
        → Reachable t
        → (position_id : String) (settlement : SettlementMetrics W) (closed_at : Time)
        → Reachable (after_close t (settle_trade_close store position_id settlement closed_at t))
