-- ===== src/Backtest/Seen.antt =====
-- backtest/backtest_runner.py, `run`: a bar keeps what was seen last.
use btc_bot.Prelude.{
  ◌≡◌, suc, refl, ap, ◌∙◌, true, Option, some, is_some, List, inl, inr, Bool-cases, Option-cases,
  length,
}
use btc_bot.Prelude.Double.{Double}
use btc_bot.Core.Models.{Time, SignalCandidate, ExecutableSignal}
use btc_bot.Core.Features.Engine.{compute}
use btc_bot.Core.Funding.{RawSample}
use btc_bot.Core.Governance.{evaluate as evaluate_governance, to_executable}
use btc_bot.Core.Risk.{RiskDecision, evaluate as evaluate_risk}
use btc_bot.Orchestrator.World.{Settings}
use btc_bot.Backtest.Fill.{FillModel}
use btc_bot.Backtest.Exits.{Bar}
use btc_bot.Backtest.Booked.{Holds, if_filled-Holds}
use btc_bot.Backtest.Runtime.{governance_state, risk_state}
use btc_bot.Backtest.Runner.{
  ReplaySnapshot, Ids, BacktestConfig, Replay, bar_of, close_positions_if_needed, close_loop,
  closing_of,
}
use btc_bot.Backtest.Run.{
  runtime_of, open_position, open_allowed, judge, candidate_of, decide_bar, numbered, with_signal,
  with_histories, replay_bar, seen,
}
use btc_bot.Backtest.Sound.{any_fill}

module _ {W : Type 0} ⦃d : Double W⦄ (s : Settings W) (fills : FillModel W)
    (samples : List (RawSample W)) (ids : Ids) (config : BacktestConfig W) where
  -- The last snapshot is still the one of `w`.
  abbrev Sees : Option (Time × W) → Replay W → Type 0
  Sees last w = w.last_seen ≡ last

  close_positions-Sees :
      (bar : Bar W) (w : Replay W)
      → Holds (Sees w.last_seen) (close_positions_if_needed s fills samples ids config bar w)
  unfolding close_positions_if_needed
  close_positions-Sees bar w =
      if_filled-Holds (λ _. Unit) (Sees w.last_seen)
        (close_loop s fills samples ids config bar w.open_positions
          (closing_of s fills samples ids config w))
        _ (any_fill _) (λ k _. refl)

  open_position-Sees :
      (now : Time) (c : SignalCandidate W) (e : ExecutableSignal W) (risk : RiskDecision W)
      (w : Replay W)
      → Holds (Sees w.last_seen) (open_position s fills samples ids config now c e risk w)
  unfolding open_position
  open_position-Sees now c e risk w =
      if_filled-Holds (λ _. Unit) (Sees w.last_seen) (fills.simulate _ _ _ _) _ (any_fill _)
        (λ fill _. refl)

  open_allowed-Sees :
      (now : Time) (c : SignalCandidate W) (e : ExecutableSignal W) (risk : RiskDecision W)
      (w : Replay W)
      → Holds (Sees w.last_seen) (open_allowed s fills samples ids config now c e risk w)
  unfolding open_position
  open_allowed-Sees now c e risk w = elim (Bool-cases risk.allowed) [
    | inl f ↦ rw f (open_position-Sees now c e risk w)
    | inr f ↦ rw f refl
  ]

  judge-Sees :
      (now : Time) (c : SignalCandidate W) (w : Replay W)
      → Holds (Sees w.last_seen) (judge s fills samples ids config now c w)
  unfolding judge
  judge-Sees now c w =
      let runtime = runtime_of s fills samples ids config now w in
      let r = evaluate_governance s.governance (governance_state runtime) c w.levels in
      elim (Option-cases (to_executable c r.0)) [
        | inl e ↦ rw (judge, e) refl
        | inr (executable, e) ↦
            rw (judge, e)
              (open_allowed-Sees now c executable
                (evaluate_risk s.risk (risk_state runtime) executable w.equity
                  (length w.open_positions))
                (record w { levels = r.1 }))
      ]

  decide_bar-Sees :
      (snap : ReplaySnapshot W) (w : Replay W)
      → Holds (Sees w.last_seen) (decide_bar s fills samples ids config snap w)
  unfolding decide_bar
  decide_bar-Sees snap w =
      let now = snap.snapshot.timestamp in
      elim (Option-cases (candidate_of s fills samples ids config snap w)) [
        | inl e ↦ rw (decide_bar, e) refl
        | inr (c, e) ↦
            rw (decide_bar, e)
              (judge-Sees now (numbered s fills samples ids config now (suc w.signal_counter) c) (
                with_signal s fills samples ids config (
                  with_histories s fills samples ids config
                    (compute s.features w.histories snap.snapshot s.schema_version s.config_hash).1
                    w)))
      ]

  abbrev pub HasSeen : Replay W → Type 0
  HasSeen w = is_some w.last_seen ≡ true

  pub replay_bar-HasSeen :
      (snap : ReplaySnapshot W) (w : Replay W)
      → Holds HasSeen (replay_bar s fills samples ids config snap w)
  unfolding replay_bar
  replay_bar-HasSeen snap w =
      if_filled-Holds (Sees (some (snap.snapshot.timestamp, snap.snapshot.price))) HasSeen
        (close_positions_if_needed s fills samples ids config (bar_of snap)
          (seen s fills samples ids config snap w))
        _ (close_positions-Sees (bar_of snap) (seen s fills samples ids config snap w))
        (λ w' h'.
          if_filled-Holds (Sees w'.last_seen) HasSeen
            (decide_bar s fills samples ids config snap w') _ (decide_bar-Sees snap w')
            (λ w'' h''. ap is_some (h'' ∙ h')))
