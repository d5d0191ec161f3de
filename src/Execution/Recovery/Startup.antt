-- ===== src/Execution/Recovery/Startup.antt =====
-- execution/recovery.py, `run_startup_sync`: when the bot starts in safe mode.
use btc_bot.Prelude.{
  ◌≡◌, ◌≢◌, ◌↔◌, refl, ap, ◌∙◌, arith, Bool, true, false, not, ◌&&◌, Option, none, some, String,
  List, [], ◌∷◌, inl, inr, Option-cases, Bool-cases,
}
use mathlib.Core.Path.{subst}
use btc_bot.Prelude.Double.{Double}
use btc_bot.Core.Models.{Time, BotState}
use btc_bot.Storage.Tables.{Tables}
use btc_bot.Storage.Queries.{fetch_open_positions}
use btc_bot.Storage.Trigger.{trigger_of}
use btc_bot.Storage.Runtime.{Store, ensure_initialized, load, save}
use btc_bot.Storage.State.{set_safe_mode, switched, mark_error, get_open_positions_snapshot}
use btc_bot.Storage.SafeMode.{view, ensure_initialized-IsSynced, refresh_runtime_state-IsFresh}
use btc_bot.Execution.Recovery.{
  Coordinator, ExchangeSync, RecoveryReport, Issue, is_technical, was_safe, last_error_of,
  start_paper, conclude, run_startup_sync, validate_recovery_state,
}

module _ {W : Type 0} ⦃d : Double W⦄ where
  -- What makes a start unsafe, by what the exchange answers
  abbrev pub IsSuspect : Coordinator → ExchangeSync W → Tables W → Type 0
  IsSuspect c ExchangeSync.no_op t =
      ((view t).0 ≡ true) × (is_technical (trigger_of (last_error_of t.bot_state)) ≡ false)
  IsSuspect c (ExchangeSync.failed exc) t = Unit
  IsSuspect c (ExchangeSync.answered positions orders) t =
      validate_recovery_state c (get_open_positions_snapshot t) positions orders ≢ []

  -- The report tells the state that is stored.
  pub record IsReported (r : RecoveryReport × Tables W) : Type 0 where
    pub state : BotState W
    pub stored : r.1.bot_state ≡ some state
    pub same_safe_mode : state.safe_mode ≡ r.0.safe_mode
    pub same_healthy : state.healthy ≡ r.0.healthy
    pub healthy_iff : r.0.healthy ≡ not r.0.safe_mode

flag_iff :
    (x safe technical : Bool)
    → x ≡ (safe && not technical)
    → (x ≡ true) ↔ ((safe ≡ true) × (technical ≡ false))
flag_iff x safe technical e = ground arith

same_answer :
    (safe safe' : Bool) (reason reason' : Option String)
    → safe ≡ safe'
    → reason ≡ reason'
    → (safe && not (is_technical (trigger_of reason)))
      ≡ (safe' && not (is_technical (trigger_of reason')))
same_answer safe safe' reason reason' e f = rw (e, f) refl

module _ {W : Type 0} ⦃d : Double W⦄ (store : Store W) where
  set_safe_mode-IsReported :
      (safe : Bool) (reason : Option String) (now : Time) (t : Tables W) (issues : List Issue)
      → IsReported (
        record { healthy = not safe; safe_mode = safe; issues = issues },
        (set_safe_mode store safe reason now t).1,
      )
  unfolding set_safe_mode switched save
  set_safe_mode-IsReported true reason now t issues = record {
    state = _;
    stored = refl;
    same_safe_mode = refl;
    same_healthy = refl;
    healthy_iff = refl;
  }
  set_safe_mode-IsReported false reason now t issues = record {
    state = _;
    stored = refl;
    same_safe_mode = refl;
    same_healthy = refl;
    healthy_iff = refl;
  }

  loaded :
      (t : Tables W)
      → let o = load (ensure_initialized store t).1 in
        (was_safe o ≡ (view t).0) × (last_error_of o ≡ last_error_of t.bot_state)
  unfolding ensure_initialized load save
  loaded t = elim (Option-cases t.bot_state) [
    | inl e ↦ rw e (refl, refl)
    | inr (s, e) ↦ rw e (refl, refl)
  ]

  same_snapshot :
      (t : Tables W)
      → get_open_positions_snapshot (ensure_initialized store t).1 ≡ get_open_positions_snapshot t
  unfolding get_open_positions_snapshot fetch_open_positions
  same_snapshot t = rw (ensure_initialized-IsSynced store t).0.same_positions refl

  start_paper-safe :
      (now : Time) (o : Option (BotState W)) (t : Tables W)
      → let r = start_paper store now o t in
        (r.0.safe_mode ≡ (was_safe o && not (is_technical (trigger_of (last_error_of o)))))
        × IsReported r
  unfolding start_paper
  start_paper-safe now o t =
      elim (Bool-cases (was_safe o && not (is_technical (trigger_of (last_error_of o))))) [
        | inl e ↦ rw e (refl, set_safe_mode-IsReported true (last_error_of o) now t [])
        | inr e ↦ rw e (refl, set_safe_mode-IsReported false none now t [])
      ]

  conclude-safe :
      (now : Time) (t : Tables W) (issues : List Issue)
      → let r = conclude store now t issues in
        ((r.0.safe_mode ≡ true) ↔ (issues ≢ [])) × IsReported r
  conclude-safe now t [] =
      (((λ e. absurd (cc)), (λ n. absurd (n refl))), set_safe_mode-IsReported false none now t [])
  conclude-safe now t (x ∷ xs) =
      (((λ _ e. absurd (cc)), (λ _. refl)), set_safe_mode-IsReported true _ now t (x ∷ xs))

  -- The bot starts in safe mode exactly if, on paper, it was in safe mode and the trigger of its
  -- last error is no technical one, or else if the exchange could not be asked or its answer
  -- differs from the stored positions; whatever is reported is stored, and the start is healthy
  -- exactly if it is not in safe mode.
  pub run_startup_sync_safe_iff :
      (c : Coordinator) (sync : ExchangeSync W) (now : Time) (t : Tables W)
      → let r = run_startup_sync c sync store now t in
        ((r.0.safe_mode ≡ true) ↔ IsSuspect c sync t) × IsReported r
  unfolding run_startup_sync
  run_startup_sync_safe_iff c ExchangeSync.no_op now t =
      let t1 = (ensure_initialized store t).1 in
      let (safe, reported) = start_paper-safe now (load t1) t1 in
      let (flag, error) = loaded t in
      let trigger = trigger_of (last_error_of t.bot_state) in
      (flag_iff _ (view t).0 (is_technical trigger) (safe ∙ rw (flag, error) refl), reported)
  run_startup_sync_safe_iff c (ExchangeSync.failed exc) now t = (
    ((λ _. tt), (λ _. refl)),
    set_safe_mode-IsReported true _ now (ensure_initialized store t).1 _,
  )
  run_startup_sync_safe_iff c (ExchangeSync.answered positions orders) now t =
      let t1 = (ensure_initialized store t).1 in
      let issues = validate_recovery_state c (get_open_positions_snapshot t1) positions orders in
      let (iff, reported) = conclude-safe now t1 issues in
      (
        subst
            (λ xs.
              ((conclude store now t1 issues).0.safe_mode ≡ true)
              ↔ (validate_recovery_state c xs positions orders ≢ []))
            (same_snapshot t) iff,
        reported,
      )

  -- An error that is marked replaces the reason of a safe mode that is on: a restart on paper stays
  -- in safe mode exactly if it was on and the trigger of the error, not of the safe mode, is no
  -- technical one.
  pub mark_error-run_startup_sync :
      (c : Coordinator) (message : String) (before now : Time) (t : Tables W)
      → let r =
          run_startup_sync c ExchangeSync.no_op store now (mark_error store message before t) in
        r.0.safe_mode ≡ ((view t).0 && not (is_technical (trigger_of (some message))))
  unfolding run_startup_sync mark_error save
  mark_error-run_startup_sync c message before now t =
      let t1 = mark_error store message before t in
      let t2 = (ensure_initialized store t1).1 in
      let (safe, _) = start_paper-safe now (load t2) t2 in
      let (flag, error) = loaded t1 in
      let f = refresh_runtime_state-IsFresh store before t in
      safe ∙ same_answer _ _ _ _ (flag ∙ ap (λ v. v.0) f.same_view) error
