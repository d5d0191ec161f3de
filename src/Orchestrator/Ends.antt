-- ===== src/Orchestrator/Ends.antt =====
-- orchestrator.py, `run_decision_cycle`, as a whole: its outcome and the checks behind a trade.
use btc_bot.Prelude.{◌≡◌, refl, sym, ap, ◌∙◌, true, false, Option, none, some, inl, inr, Sum-cases}
use btc_bot.Prelude.Double.{Double}
use btc_bot.Core.Models.{BotState, SignalCandidate, ExecutableSignal}
use btc_bot.Core.Signal.Diagnose.{generate}
use btc_bot.Core.Signal.Candidates.{Facts, generate_passes}
use btc_bot.Core.Governance.{evaluate as evaluate_governance, to_executable}
use btc_bot.Storage.Tables.{Tables}
use btc_bot.Storage.Runtime.{load, refresh_runtime_state}
use btc_bot.Storage.State.{get_governance_state}
use btc_bot.Storage.SafeMode.{view, view_of}
use btc_bot.Storage.Frame.{kept_trans, refresh-keeps, mark_error-keeps}
use btc_bot.Orchestrator.World.{Settings, World, Feed, Inputs, OutcomeGroup}
use btc_bot.Orchestrator.Lifecycle.{process_trade_lifecycle}
use btc_bot.Orchestrator.Cycle.{
  is_safe_mode, quotes_of, decide_risk, features_of, regime_of, context_of, candidate_of,
  run_decision_cycle,
}
use btc_bot.Orchestrator.Engine.{KeepsThrough}
use btc_bot.Orchestrator.Exits.{lifecycle-keeps}
use btc_bot.Orchestrator.Opens.{IsEnded, IsReached, after, stopped-IsEnded, run_on-IsEnded}

pub is_safe_mode-view :
    {W : Type 0} ⦃d : Double W⦄ (t : Tables W) → is_safe_mode (load t) ≡ (view t).0
unfolding load
is_safe_mode-view t = same t.bot_state
  where
    same : {W : Type 0} (o : Option (BotState W)) → is_safe_mode o ≡ (view_of o).0
    same none = refl
    same (some s) = refl

module _ {W : Type 0} ⦃d : Double W⦄ (s : Settings W) (i : Inputs W) (w : World W) where
  -- the tables once the runtime state is refreshed, and after the exits of open trades
  abbrev start : Tables W
  start = (refresh_runtime_state s.store i.now w.tables).1

  abbrev exited : Feed W → Tables W
  exited feed = (process_trade_lifecycle s i.funding_rates feed start).tables

  -- What a trade that the cycle opens has passed.
  pub record IsOpened : Type 0 where
    pub feed : Feed W
    pub built : i.built ≡ inr feed
    pub no_exit_error : (process_trade_lifecycle s i.funding_rates feed start).error ≡ none
    pub awake : (view w.tables).0 ≡ false
    pub candidate : SignalCandidate W
    pub facts :
        Facts s.signal
          (features_of s i feed w)
          (regime_of s i feed w)
          i.new_id
          (some (context_of s i feed w))
          candidate
    pub approved :
        (evaluate_governance s.governance
          (get_governance_state s.store i.governance_at (exited feed)).0
          candidate
          w.levels).0.approved
        ≡ true
    pub executable : ExecutableSignal W
    pub made :
        to_executable candidate
          (evaluate_governance s.governance
            (get_governance_state s.store i.governance_at (exited feed)).0
            candidate
            w.levels).0
        ≡ some executable
    pub allowed :
        (decide_risk s i executable
          (get_governance_state s.store i.governance_at (exited feed)).1).0.allowed
        ≡ true
    pub filled :
        let r =
          decide_risk s i executable
            (get_governance_state s.store i.governance_at (exited feed)).1 in
        (i.engine.execute_signal executable r.0.size r.0.leverage (quotes_of s i feed) r.1).0 ≡ none

  candidate_of-Facts :
      (feed : Feed W) (c : SignalCandidate W)
      → candidate_of s i feed w ≡ some c
      → Facts s.signal
          (features_of s i feed w)
          (regime_of s i feed w)
          i.new_id
          (some (context_of s i feed w))
          c
  unfolding generate
  candidate_of-Facts feed c e =
      generate_passes s.signal (features_of s i feed w) (regime_of s i feed w) i.new_id
        (some (context_of s i feed w)) c e

module _ {W : Type 0} ⦃d : Double W⦄ (s : Settings W) (i : Inputs W)
    (engine_keeps : KeepsThrough i.engine) (w : World W) where
  reached-IsOpened :
      (feed : Feed W)
      → i.built ≡ inr feed
      → IsReached s i engine_keeps feed (start s i w) w
      → IsOpened s i w
  reached-IsOpened feed built (fine, awake, decided) =
      let (c, generated, (executable, approved, made, taken)) = decided in
      let kept =
        kept_trans w.tables (start s i w) (exited s i w feed) (refresh-keeps s.store i.now w.tables)
          (lifecycle-keeps s i.funding_rates feed (start s i w)) in
      record {
        feed = feed;
        built = built;
        no_exit_error = fine;
        awake =
            ap (λ v. v.0) (sym kept.same_view)
            ∙ sym (is_safe_mode-view (exited s i w feed))
            ∙ awake;
        candidate = c;
        facts = candidate_of-Facts s i w feed c generated;
        approved = approved;
        executable = executable;
        made = made;
        allowed = taken.0;
        filled = taken.1;
      }

  run-IsEnded :
      (P : Type 0)
      → ((feed : Feed W) → i.built ≡ inr feed → IsReached s i engine_keeps feed (start s i w) w → P)
      → IsEnded i.now w.decision_outcomes w.tables P (run_decision_cycle s i w)
  unfolding run_decision_cycle
  run-IsEnded P f =
      let kept = refresh-keeps s.store i.now w.tables in
      elim (Sum-cases i.built) [
        | inl (exc, e) ↦
            rw (run_decision_cycle, e)
              (stopped-IsEnded s i engine_keeps P OutcomeGroup.snapshot_failed _ w.tables _ w refl
                refl (λ h. absurd (cc))
                (kept_trans w.tables (start s i w) _ kept
                  (mark_error-keeps s.store _ i.marked_at (start s i w))))
        | inr (feed, e) ↦
            rw (run_decision_cycle, e)
              (after s i engine_keeps kept
                (run_on-IsEnded s i engine_keeps P feed (start s i w) w (f feed e)))
      ]

  -- Provided that the execution engine leaves safe mode alone, every decision cycle records exactly
  -- one decision outcome, at the time of the cycle and of the group that it ends with, and leaves
  -- safe mode and its log as they were. If it opens a trade, then the bot was not in safe mode, the
  -- candidate comes from the features of the snapshot by the rules of the signal engine, the
  -- governance has approved it on the state that the store then reads, the risk engine has allowed
  -- the signal made of it, and the engine has filled that signal with the size and the leverage
  -- that were allowed.
  pub run_decision_cycle_ends :
      IsEnded i.now w.decision_outcomes w.tables (IsOpened s i w) (run_decision_cycle s i w)
  run_decision_cycle_ends = run-IsEnded (IsOpened s i w) reached-IsOpened
