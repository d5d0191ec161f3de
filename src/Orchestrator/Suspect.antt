-- ===== src/Orchestrator/Suspect.antt =====
-- orchestrator.py, `start`: a run that starts in doubt opens no trade.
use Prim.Native.String.{◌++◌ as append}
use btc_bot.Prelude.{
  some, ◌≡◌, refl, ap, ◌∙◌, true, All, ◌⊎◌, inl, inr, is_some, Option-cases, ◌++◌,
}
use btc_bot.Prelude.Double.{Double}
use btc_bot.Core.Models.{Time}
use btc_bot.Storage.Tables.{Tables}
use btc_bot.Storage.Queries.{fetch_open_positions, upsert_daily_metrics}
use btc_bot.Storage.Runtime.{
  Store, ensure_initialized, refresh_runtime_state, sync_daily_metrics, load, save,
}
use btc_bot.Storage.State.{get_open_positions_snapshot}
use btc_bot.Storage.SafeMode.{
  view, view_of, ensure_initialized-IsSynced, refresh_runtime_state-IsFresh,
}
use btc_bot.Storage.Frame.{refresh-keeps}
use btc_bot.Execution.Recovery.{Coordinator, ExchangeSync, last_error_of}
use btc_bot.Execution.Recovery.Startup.{IsSuspect, run_startup_sync_safe_iff}
use btc_bot.Orchestrator.World.{Settings, World}
use btc_bot.Orchestrator.Engine.{KeepsThrough}
use btc_bot.Orchestrator.Guards.{feed_start_failed}
use btc_bot.Orchestrator.KillSwitch.{set_safe_mode-on}
use btc_bot.Orchestrator.Schedule.{initialize_runtime_schedule}
use btc_bot.Orchestrator.Loop.{LoopConfig}
use btc_bot.Orchestrator.Locked.{IsOn, IsLocked, run_event_loop-IsLocked}
use btc_bot.Orchestrator.Start.{Startup, recover, start_data_feeds, start}

module _ {W : Type 0} ⦃d : Double W⦄ (store : Store W) where
  initialized_error :
      (t : Tables W)
      → last_error_of (ensure_initialized store t).1.bot_state ≡ last_error_of t.bot_state
  unfolding ensure_initialized load save
  initialized_error t = elim (Option-cases t.bot_state) [
    | inl e ↦ rw e refl
    | inr (s, e) ↦ rw e refl
  ]

  refreshed_error :
      (now : Time) (t : Tables W)
      → last_error_of (refresh_runtime_state store now t).1.bot_state ≡ last_error_of t.bot_state
  unfolding refresh_runtime_state ensure_initialized sync_daily_metrics upsert_daily_metrics load
      save
  refreshed_error now t = elim (Option-cases t.bot_state) [
    | inl e ↦ rw e refl
    | inr (s, e) ↦ rw e refl
  ]

-- A doubt is about safe mode, the last error and the positions alone.
IsSuspect-same :
    {W : Type 0} ⦃d : Double W⦄ (c : Coordinator) (sync : ExchangeSync W) (t t' : Tables W)
    → view t' ≡ view t
    → last_error_of t'.bot_state ≡ last_error_of t.bot_state
    → t'.positions ≡ t.positions
    → IsSuspect c sync t
    → IsSuspect c sync t'
unfolding get_open_positions_snapshot fetch_open_positions
IsSuspect-same c ExchangeSync.no_op t t' v e p h = (ap (λ x. x.0) v ∙ h.0, rw e h.1)
IsSuspect-same c (ExchangeSync.failed exc) t t' v e p h = tt
IsSuspect-same c (ExchangeSync.answered positions orders) t t' v e p h = rw p h

module _ {W : Type 0} ⦃d : Double W⦄ (s : Settings W) (c : LoopConfig W) (i : Startup W) where
  recover-IsOn :
      (w : World W) → IsSuspect i.coordinator i.exchange_sync w.tables → IsOn (recover s c i w).1
  unfolding recover
  recover-IsOn w h =
      let t1 = (ensure_initialized s.store w.tables).1 in
      let t2 = (refresh_runtime_state s.store i.startup_ts t1).1 in
      let synced = (ensure_initialized-IsSynced s.store w.tables).0 in
      let fresh = refresh_runtime_state-IsFresh s.store i.startup_ts t1 in
      let (iff, reported) =
        run_startup_sync_safe_iff s.store i.coordinator i.exchange_sync i.synced_at t2 in
      let suspect =
        IsSuspect-same i.coordinator i.exchange_sync w.tables t2
          ((refresh-keeps s.store i.startup_ts t1).same_view ∙ synced.kept.same_view)
          (refreshed_error s.store i.startup_ts t1 ∙ initialized_error s.store w.tables)
          (fresh.same_positions ∙ synced.same_positions) h in
      ap (λ o. (view_of o).0) reported.stored ∙ reported.same_safe_mode ∙ iff.1 suspect

  feeds-IsOn :
      (w : World W) → IsOn w ⊎ (is_some i.feed_error ≡ true) → IsOn (start_data_feeds s c i w)
  unfolding start_data_feeds feed_start_failed
  feeds-IsOn w h = elim (Option-cases i.feed_error) [
    | inr ((exc, at), e) ↦
        rw (start_data_feeds, e)
          (set_safe_mode-on s (some (append "feed_start_failed:" exc)) at w.tables)
    | inl e ↦ rw (start_data_feeds, e) (elim h [ inl on ↦ on | inr f ↦ absurd (cc (e, f)) ])
  ]

  same_outcomes :
      (w : World W)
      → (start_data_feeds s c i (recover s c i w).1).decision_outcomes ≡ w.decision_outcomes
  unfolding start_data_feeds recover feed_start_failed
  same_outcomes w = elim (Option-cases i.feed_error) [
    | inr (x, e) ↦ rw (start_data_feeds, e) refl
    | inl e ↦ rw (start_data_feeds, e) refl
  ]

  -- A start is in doubt where, on paper, safe mode is stored with an error whose trigger is no
  -- technical one, where the exchange cannot be asked or its answer differs from the stored
  -- positions, or where the data feeds do not start. Then, where the execution engines leave safe
  -- mode alone, the bot is in safe mode after any turns of the event loop, and no decision outcome of
  -- the run is that of a trade that was opened.
  pub start-IsLocked :
      (w : World W)
      → All (λ t. KeepsThrough t.inputs.engine) i.turns
      → IsSuspect i.coordinator i.exchange_sync w.tables ⊎ (is_some i.feed_error ≡ true)
      → IsLocked w (start s c i w).1.1
  unfolding start
  start-IsLocked w keeps doubt =
      let w' = start_data_feeds s c i (recover s c i w).1 in
      let on : IsOn (recover s c i w).1 ⊎ (is_some i.feed_error ≡ true) = (elim doubt [
        | inl h ↦ inl (recover-IsOn w h)
        | inr f ↦ inr f
      ]) in
      let locked =
        run_event_loop-IsLocked s c i.turns (initialize_runtime_schedule i.scheduled_at, w') keeps
          (feeds-IsOn (recover s c i w).1 on) in
      record {
        outcomes = locked.outcomes;
        recorded = locked.recorded ∙ ap (λ os. os ++ locked.outcomes) (same_outcomes w);
        opens_nothing = locked.opens_nothing;
        still_on = locked.still_on;
      }
