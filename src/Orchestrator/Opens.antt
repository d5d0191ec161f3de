-- ===== src/Orchestrator/Opens.antt =====
-- orchestrator.py, `run_decision_cycle`: how a cycle ends, and when it opens a trade.
use mathlib.Core.Path.{subst}
use btc_bot.Prelude.{
  ◌≡◌, refl, true, false, String, none, some, List, [], ◌∷◌, ◌++◌, inl, inr, Option-cases,
  Bool-cases, Sum-cases,
}
use btc_bot.Prelude.Double.{Double}
use btc_bot.Core.Models.{Time, SignalCandidate, ExecutableSignal}
use btc_bot.Core.Features.Engine.{compute}
use btc_bot.Core.Governance.{GovernanceDecision, evaluate as evaluate_governance, to_executable}
use btc_bot.Core.Risk.{RiskDecision}
use btc_bot.Storage.Tables.{Tables}
use btc_bot.Storage.Runtime.{load}
use btc_bot.Storage.State.{get_governance_state, get_open_positions}
use btc_bot.Storage.Trades.{record_trade_open}
use btc_bot.Storage.SafeMode.{KeepsSafeMode}
use btc_bot.Storage.Reach.{after_open}
use btc_bot.Storage.Frame.{
  kept_refl, kept_trans, mark_error-keeps, mark_healthy-keeps, get_governance_state-keeps,
  get_risk_state-keeps, record_trade_open-keeps,
}
use btc_bot.Orchestrator.World.{Settings, World, Feed, Inputs, OutcomeGroup, DecisionOutcome}
use btc_bot.Orchestrator.Lifecycle.{process_trade_lifecycle}
use btc_bot.Orchestrator.Cycle.{
  is_safe_mode, quotes_of, execution_failed, labels, record_fill, execute, decide_risk, size_signal,
  judge_candidate, candidate_of, decide, run_on, record_decision_outcome, asks_state, account,
}
use btc_bot.Orchestrator.Engine.{KeepsThrough}
use btc_bot.Orchestrator.Exits.{lifecycle-keeps}

-- From the tables `t`: one outcome is recorded after those from before, that of the result, and safe
-- mode is left alone; and `P` holds if a trade was opened.
pub record IsEnded {W : Type 0} (now : Time) (before : List DecisionOutcome) (t : Tables W)
    (P : Type 0) (r : OutcomeGroup × World W) : Type 0 where
  pub outcome : DecisionOutcome
  pub recorded : r.1.decision_outcomes ≡ before ++ (outcome ∷ [])
  pub same_group : outcome.outcome_group ≡ r.0
  pub same_time : outcome.cycle_timestamp ≡ now
  pub kept : KeepsSafeMode t r.1.tables
  pub opened : r.0 ≡ OutcomeGroup.signal_generated → P

module _ {W : Type 0} ⦃d : Double W⦄ (s : Settings W) (i : Inputs W)
    (engine_keeps : KeepsThrough i.engine) where
  -- What ends from the tables that an operation left ends from those before it.
  pub after :
      {t t' : Tables W} {before : List DecisionOutcome} {P : Type 0} {r : OutcomeGroup × World W}
      → KeepsSafeMode t t'
      → IsEnded i.now before t' P r
      → IsEnded i.now before t P r
  after {t} {t'} {before} {P} {r} k h = record {
    outcome = h.outcome;
    recorded = h.recorded;
    same_group = h.same_group;
    same_time = h.same_time;
    kept = kept_trans t t' r.1.tables k h.kept;
    opened = h.opened;
  }

  execution_failed-IsEnded :
      (P : Type 0) (c : SignalCandidate W) (exc : String) (t : Tables W) (w : World W)
      → IsEnded i.now w.decision_outcomes t P (execution_failed s i c exc t w)
  unfolding execution_failed
  execution_failed-IsEnded P c exc t w = record {
    outcome = _;
    recorded = refl;
    same_group = refl;
    same_time = refl;
    kept = mark_error-keeps s.store _ i.marked_at t;
    opened = λ e. absurd (cc);
  }

  record_fill-IsEnded :
      (P : Type 0) (c : SignalCandidate W) (executable : ExecutableSignal W) (t : Tables W)
      (w : World W)
      → P
      → IsEnded i.now w.decision_outcomes t P (record_fill s i c executable t w)
  unfolding record_fill
  record_fill-IsEnded P c executable t w p =
      let kept = record_trade_open-keeps s.store (labels s i) c executable none t in
      elim (Sum-cases (record_trade_open s.store (labels s i) c executable none t)) [
        | inl (x, e) ↦ rw (record_fill, e) (execution_failed-IsEnded P c _ t w)
        | inr (r, e) ↦
            rw (record_fill, e)
              (record {
                outcome = _;
                recorded = refl;
                same_group = refl;
                same_time = refl;
                kept =
                    kept_trans t r.1 _ (subst (λ x. KeepsSafeMode t (after_open t x)) e kept)
                      (mark_healthy-keeps s.store i.marked_at r.1);
                opened = λ _. p;
              })
      ]

  -- The engine fills the signal, with the size that the risk engine allows.
  abbrev IsFilled : Feed W → ExecutableSignal W → RiskDecision W → Tables W → Type 0
  IsFilled feed executable risk t =
      (i.engine.execute_signal executable risk.size risk.leverage (quotes_of s i feed) t).0 ≡ none

  execute-IsEnded :
      (P : Type 0) (feed : Feed W) (c : SignalCandidate W) (executable : ExecutableSignal W)
      (risk : RiskDecision W) (t : Tables W) (w : World W)
      → (IsFilled feed executable risk t → P)
      → IsEnded i.now w.decision_outcomes t P (execute s i feed c executable risk t w)
  unfolding execute
  execute-IsEnded P feed c executable risk t w f =
      let q = quotes_of s i feed in
      let r = i.engine.execute_signal executable risk.size risk.leverage q t in
      let kept = engine_keeps executable risk.size risk.leverage q t in
      elim (Option-cases r.0) [
        | inr (exc, e) ↦ rw (execute, e) (after kept (execution_failed-IsEnded P c exc r.1 w))
        | inl e ↦ rw (execute, e) (after kept (record_fill-IsEnded P c executable r.1 w (f e)))
      ]

  -- A cycle that stops before the execution opens nothing.
  pub stopped-IsEnded :
      (P : Type 0) (g : OutcomeGroup) (o : DecisionOutcome) (t t' : Tables W) (w : World W)
      → o.outcome_group ≡ g
      → o.cycle_timestamp ≡ i.now
      → (g ≡ OutcomeGroup.signal_generated → ⊥)
      → KeepsSafeMode t t'
      → IsEnded i.now w.decision_outcomes t P (g, record_decision_outcome o t' w)
  stopped-IsEnded P g o t t' w e f n k = record {
    outcome = o;
    recorded = refl;
    same_group = e;
    same_time = f;
    kept = k;
    opened = λ h. absurd (n h);
  }

  decide_risk-keeps :
      (executable : ExecutableSignal W) (t : Tables W)
      → KeepsSafeMode t (decide_risk s i executable t).1
  unfolding decide_risk
  decide_risk-keeps executable t =
      elim (Bool-cases (asks_state s i s.risk executable (account s i) (get_open_positions t))) [
        | inl e ↦ rw (decide_risk, e) (get_risk_state-keeps s.store i.risk_at t)
        | inr e ↦ rw (decide_risk, e) (kept_refl t)
      ]

  -- The risk engine allows the signal and the engine fills it.
  abbrev IsTaken : Feed W → ExecutableSignal W → Tables W → Type 0
  IsTaken feed executable t =
      let r = decide_risk s i executable t in
      (r.0.allowed ≡ true) × IsFilled feed executable r.0 r.1

  size_signal-IsEnded :
      (P : Type 0) (feed : Feed W) (c : SignalCandidate W) (executable : ExecutableSignal W)
      (t : Tables W) (w : World W)
      → (IsTaken feed executable t → P)
      → IsEnded i.now w.decision_outcomes t P (size_signal s i feed c executable t w)
  unfolding size_signal
  size_signal-IsEnded P feed c executable t w f =
      let r = decide_risk s i executable t in
      let kept = decide_risk-keeps executable t in
      elim (Bool-cases r.0.allowed) [
        | inr e ↦
            rw (size_signal, e)
              (stopped-IsEnded P OutcomeGroup.risk_block _ t _ w refl refl (λ h. absurd (cc))
                (kept_trans t r.1 _ kept (mark_healthy-keeps s.store i.marked_at r.1)))
        | inl e ↦
            rw (size_signal, e)
              (after kept (execute-IsEnded P feed c executable r.0 r.1 w (λ filled. f (e, filled))))
      ]

  approved_executable :
      (c : SignalCandidate W) (decision : GovernanceDecision W)
      → decision.approved ≡ true
      → (executable : ExecutableSignal W) × (to_executable c decision ≡ some executable)
  unfolding to_executable
  approved_executable c decision e = rw (to_executable, e) (_, refl)

  -- The governance approves the candidate, and its signal is taken.
  abbrev IsApproved : Feed W → SignalCandidate W → Tables W → World W → Type 0
  IsApproved feed c t w =
      let g = get_governance_state s.store i.governance_at t in
      let r = evaluate_governance s.governance g.0 c w.levels in
      (executable : ExecutableSignal W) × (r.0.approved ≡ true)
      × (to_executable c r.0 ≡ some executable)
      × IsTaken feed executable g.1

  judge_candidate-IsEnded :
      (P : Type 0) (feed : Feed W) (c : SignalCandidate W) (t : Tables W) (w : World W)
      → (IsApproved feed c t w → P)
      → IsEnded i.now w.decision_outcomes t P (judge_candidate s i feed c t w)
  unfolding judge_candidate
  judge_candidate-IsEnded P feed c t w f =
      let g = get_governance_state s.store i.governance_at t in
      let r = evaluate_governance s.governance g.0 c w.levels in
      let w' = record w { levels = r.1 } in
      let kept = get_governance_state-keeps s.store i.governance_at t in
      elim (Bool-cases r.0.approved) [
        | inr e ↦
            rw (judge_candidate, e)
              (stopped-IsEnded P OutcomeGroup.governance_veto _ t _ w' refl refl (λ h. absurd (cc))
                (kept_trans t g.1 _ kept (mark_healthy-keeps s.store i.marked_at g.1)))
        | inl e ↦
            let (executable, made) = approved_executable c r.0 e in
            rw (judge_candidate, made, e)
              (after kept (
                size_signal-IsEnded P feed c executable g.1 w'
                  (λ taken. f (executable, e, made, taken))))
      ]

  -- A candidate comes from the features of the snapshot, and is approved.
  abbrev IsDecided : Feed W → Tables W → World W → Type 0
  IsDecided feed t w =
      (c : SignalCandidate W) × (candidate_of s i feed w ≡ some c) × IsApproved feed c t w

  decide-IsEnded :
      (P : Type 0) (feed : Feed W) (t : Tables W) (w : World W)
      → (IsDecided feed t w → P)
      → IsEnded i.now w.decision_outcomes t P (decide s i feed t w)
  unfolding decide
  decide-IsEnded P feed t w f =
      let next = compute s.features w.histories feed.snapshot s.schema_version s.config_hash in
      let w' = record w { histories = next.1 } in
      elim (Option-cases (candidate_of s i feed w)) [
        | inl e ↦
            rw (decide, e)
              (stopped-IsEnded P OutcomeGroup.no_signal _ t _ w' refl refl (λ h. absurd (cc))
                (mark_healthy-keeps s.store i.marked_at t))
        | inr (c, e) ↦
            rw (decide, e) (judge_candidate-IsEnded P feed c t w' (λ approved. f (c, e, approved)))
      ]

  -- The cycle is past the exits and awake.
  abbrev pub IsReached : Feed W → Tables W → World W → Type 0
  IsReached feed t w =
      let life = process_trade_lifecycle s i.funding_rates feed t in
      (life.error ≡ none) × (is_safe_mode (load life.tables) ≡ false) × IsDecided feed life.tables w

  pub run_on-IsEnded :
      (P : Type 0) (feed : Feed W) (t : Tables W) (w : World W)
      → (IsReached feed t w → P)
      → IsEnded i.now w.decision_outcomes t P (run_on s i feed t w)
  unfolding run_on
  run_on-IsEnded P feed t w f =
      let life = process_trade_lifecycle s i.funding_rates feed t in
      let kept = lifecycle-keeps s i.funding_rates feed t in
      elim (Option-cases life.error) [
        | inr (x, e) ↦
            rw (run_on, e)
              (stopped-IsEnded P OutcomeGroup.lifecycle_failed _ t _ w refl refl (λ h. absurd (cc))
                (kept_trans t life.tables _ kept
                  (mark_error-keeps s.store _ i.marked_at life.tables)))
        | inl e ↦
            rw (run_on, e)
              (elim (Bool-cases (is_safe_mode (load life.tables))) [
                | inl e' ↦
                    rw (run_on, e')
                      (stopped-IsEnded P OutcomeGroup.safe_mode_skip _ t _ w refl refl
                        (λ h. absurd (cc)) kept)
                | inr e' ↦
                    rw (run_on, e')
                      (after kept (decide-IsEnded P feed life.tables w (λ x. f (e, e', x))))
              ])
      ]
