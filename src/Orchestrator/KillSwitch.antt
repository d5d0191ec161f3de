-- ===== src/Orchestrator/KillSwitch.antt =====
-- orchestrator.py, `_evaluate_kill_switch`: when it turns safe mode on.
use btc_bot.Prelude.{
  ◌≡◌, ◌↔◌, ◌⊎◌, refl, sym, ap, ◌∙◌, arith, ℕ, ◌<◌, Bool, true, false, not, ◌&&◌, ◌||◌, String,
  Option, some, ◌++◌, inl, inr, ltb, Bool-cases,
}
use btc_bot.Prelude.Double.{Double, ◌≺◌}
use btc_bot.Core.Models.{Time}
use btc_bot.Storage.Tables.{Tables}
use btc_bot.Storage.Runtime.{
  load, save, refresh_runtime_state, compute_consecutive_losses, compute_daily_dd_pct,
  compute_weekly_dd_pct,
}
use btc_bot.Storage.State.{set_safe_mode, switched}
use btc_bot.Storage.SafeMode.{view, refresh_runtime_state-IsFresh}
use btc_bot.Storage.Frame.{refresh-keeps}
use btc_bot.Storage.Measures.{refreshed_measures}
use btc_bot.Orchestrator.World.{Settings, World}
use btc_bot.Orchestrator.Cycle.{is_safe_mode}
use btc_bot.Orchestrator.Guards.{
  KillReason, activate_safe_mode, kill_reasons, evaluate_kill_switch, is_empty, joined, reason_if,
}
use btc_bot.Orchestrator.Ends.{is_safe_mode-view}

reasons_any :
    (a b c e : Bool)
    → not (
        is_empty (
          reason_if a KillReason.daily_dd
          ++ (reason_if b KillReason.weekly_dd
              ++ (reason_if c KillReason.consecutive_losses
                  ++ reason_if e KillReason.critical_execution_errors))))
      ≡ (a || (b || (c || e)))
reasons_any a b c e = ground arith

both :
    (safe before reasons : Bool)
    → safe ≡ before
    → (reasons && not safe) ≡ true
    → true ≡ (before || reasons)
both safe before reasons e h = ground arith

none_or_on :
    (safe before reasons : Bool)
    → safe ≡ before
    → (reasons && not safe) ≡ false
    → before ≡ (before || reasons)
none_or_on safe before reasons e h = ground arith

exceeded_iff :
    (after before daily weekly : Bool) (most_losses losses most_errors errors : ℕ)
    → after ≡ (before || (daily || (weekly || (ltb most_losses losses || ltb most_errors errors))))
    → (after ≡ true) ↔ (
        (before ≡ true)
        ⊎ ((daily ≡ true) ⊎ ((weekly ≡ true) ⊎ ((most_losses < losses) ⊎ (most_errors < errors)))))
exceeded_iff after before daily weekly most_losses losses most_errors errors e = ground arith

module _ {W : Type 0} ⦃d : Double W⦄ (s : Settings W) where
  open d use {lt}

  pub set_safe_mode-on :
      (reason : Option String) (now : Time) (t : Tables W)
      → (view (set_safe_mode s.store true reason now t).1).0 ≡ true
  unfolding set_safe_mode switched save
  set_safe_mode-on reason now t = refl

  pub activate_safe_mode-on :
      (reason : String) (now : Time) (t : Tables W)
      → (view (activate_safe_mode s.store reason now t)).0 ≡ true
  unfolding activate_safe_mode
  activate_safe_mode-on reason now t = elim (Bool-cases (is_safe_mode (load t))) [
    | inl e ↦ rw (activate_safe_mode, e) (sym (is_safe_mode-view t) ∙ e)
    | inr e ↦ rw (activate_safe_mode, e) (set_safe_mode-on (some reason) now t)
  ]

  kill_switch-on :
      (text : KillReason → String) (now : Time) (w : World W)
      → let fresh = refresh_runtime_state s.store now w.tables in
        (view (evaluate_kill_switch s text now w).tables).0
        ≡ ((view w.tables).0 || not (is_empty (kill_reasons s fresh.0 w.critical_execution_errors)))
  unfolding evaluate_kill_switch
  kill_switch-on text now w =
      let fresh = refresh_runtime_state s.store now w.tables in
      let state = fresh.0 in
      let reasons = kill_reasons s fresh.0 w.critical_execution_errors in
      let f = refresh_runtime_state-IsFresh s.store now w.tables in
      let flag : state.safe_mode ≡ (view w.tables).0 = ap (λ v. v.0) f.same_view in
      let kept : (view fresh.1).0 ≡ (view w.tables).0 =
        ap (λ v. v.0) (refresh-keeps s.store now w.tables).same_view in
      elim (Bool-cases (not (is_empty reasons) && not state.safe_mode)) [
        | inl e ↦
            let on = activate_safe_mode-on (joined text reasons) now fresh.1 in
            rw (evaluate_kill_switch, e) (on ∙ both _ _ _ flag e)
        | inr e ↦ rw (evaluate_kill_switch, e) (kept ∙ none_or_on _ _ _ flag e)
      ]

  -- A limit is passed, by the trade log or by the errors that were counted.
  abbrev pub IsExceeded : Time → World W → Type 0
  IsExceeded now w =
      (s.risk.daily_dd_limit ≺ compute_daily_dd_pct s.store now w.tables)
      ⊎ ((s.risk.weekly_dd_limit ≺ compute_weekly_dd_pct s.store now w.tables)
          ⊎ ((s.risk.max_consecutive_losses < compute_consecutive_losses now w.tables)
              ⊎ (s.kill_switch_max_exec_errors < w.critical_execution_errors)))

  -- After the kill switch the bot is in safe mode exactly if it was before, or the drawdown of the
  -- day or of the week, the losing streak of the day, or the count of failed executions is above
  -- its limit; drawdowns and streak are those of the trade log.
  pub evaluate_kill_switch_iff :
      (text : KillReason → String) (now : Time) (w : World W)
      → ((view (evaluate_kill_switch s text now w).tables).0 ≡ true)
        ↔ (((view w.tables).0 ≡ true) ⊎ IsExceeded now w)
  unfolding kill_reasons
  evaluate_kill_switch_iff text now w =
      let fresh = refresh_runtime_state s.store now w.tables in
      let (losses, daily, weekly) = refreshed_measures s.store now w.tables in
      let any =
        reasons_any (lt s.risk.daily_dd_limit fresh.0.daily_dd_pct)
          (lt s.risk.weekly_dd_limit fresh.0.weekly_dd_pct)
          (ltb s.risk.max_consecutive_losses fresh.0.consecutive_losses)
          (ltb s.kill_switch_max_exec_errors w.critical_execution_errors) in
      exceeded_iff _ (view w.tables).0 _ _ s.risk.max_consecutive_losses _
        s.kill_switch_max_exec_errors w.critical_execution_errors
        (kill_switch-on text now w
          ∙ ap (λ b. (view w.tables).0 || b) (any ∙ rw (losses, daily, weekly) refl))
