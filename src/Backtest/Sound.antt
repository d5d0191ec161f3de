-- ===== src/Backtest/Sound.antt =====
-- backtest/backtest_runner.py, `run`: what holds after any bars of a replay.
use btc_bot.Prelude.{
  ◌≡◌, refl, ap, arith, ℕ, suc, List, [], ◌∷◌, ◌⊎◌, inl, inr, length, length-append, All-append,
  Bool-cases, Option-cases,
}
use btc_bot.Prelude.Double.{Double, IsOrdered}
use btc_bot.Core.Models.{Time, SignalCandidate, ExecutableSignal}
use btc_bot.Core.Funding.{RawSample}
use btc_bot.Core.Governance.{evaluate as evaluate_governance, to_executable}
use btc_bot.Core.Risk.{RiskDecision, evaluate as evaluate_risk}
use btc_bot.Orchestrator.World.{Settings}
use btc_bot.Backtest.Fill.{FillModel, FillError}
use btc_bot.Backtest.Positions.{OpenPositionRecord}
use btc_bot.Backtest.Exits.{Bar, manage_record}
use btc_bot.Backtest.Trailing.{IsGuarded}
use btc_bot.Backtest.Guarded.{manage_record-IsManaged}
use btc_bot.Backtest.Booked.{
  Holds, if_filled-Holds, IsBooked, IsClosing, IsFate, managed-Holds, with_fate-IsClosing,
}
use btc_bot.Backtest.Runtime.{governance_state, risk_state}
use btc_bot.Backtest.Runner.{
  ReplaySnapshot, Ids, BacktestConfig, Replay, Closing, bar_of, with_fate, closing_of, close_loop,
  close_positions_if_needed, open_record,
}
use btc_bot.Backtest.Run.{
  candidate_of, runtime_of, open_allowed, with_opened, open_position, judge, decide_bar, replay_bar,
}

module _ {W : Type 0} ⦃d : Double W⦄ where
  -- The books of the replay are in order, and each position that was opened is counted once by each
  -- counter and has its time.
  abbrev pub IsSoundReplay : Replay W → Type 0
  IsSoundReplay w =
      IsBooked w.trade_counter w.open_positions w.closed_records w.closed_pnl_events
      × (w.position_counter ≡ w.trade_counter)
      × (length w.opened_trade_times ≡ w.trade_counter)

  pub any_fill : {A : Type 0} (x : FillError W ⊎ A) → Holds (λ _. Unit {0}) x
  any_fill (inl e) = tt
  any_fill (inr a) = tt

module _ {W : Type 0} ⦃d : Double W⦄ (laws : IsOrdered W) (s : Settings W) (fills : FillModel W)
    (samples : List (RawSample W)) (ids : Ids) (config : BacktestConfig W) where
  close_loop-IsBooked :
      (n : ℕ) (bar : Bar W) (rs : List (OpenPositionRecord W)) (k : Closing W)
      → IsClosing n rs k
      → Holds
          (λ k'. IsBooked n k'.remaining k'.closed_records k'.closed_pnl_events)
          (close_loop s fills samples ids config bar rs k)
  unfolding close_loop
  close_loop-IsBooked n bar [] k (gs, h, count) = h
  close_loop-IsBooked n bar (r ∷ rs) k (gs, h, count) =
      if_filled-Holds (IsFate bar.now) _ (manage_record s.risk fills samples bar r) _
        (managed-Holds bar.now _ (manage_record-IsManaged laws s.risk fills samples bar r gs.0))
        (λ fate f.
          close_loop-IsBooked n bar rs (with_fate bar.now fate k)
            (with_fate-IsClosing n bar.now fate r rs k f (gs, h, count)))

  close_positions-IsSoundReplay :
      (bar : Bar W) (w : Replay W)
      → IsSoundReplay w
      → Holds IsSoundReplay (close_positions_if_needed s fills samples ids config bar w)
  unfolding close_positions_if_needed
  close_positions-IsSoundReplay bar w h =
      if_filled-Holds
        (λ k. IsBooked w.trade_counter k.remaining k.closed_records k.closed_pnl_events)
        IsSoundReplay
        (close_loop s fills samples ids config bar w.open_positions
          (closing_of s fills samples ids config w))
        _
        (close_loop-IsBooked w.trade_counter bar w.open_positions _ (
          h.0.guarded,
          record {
            guarded = tt;
            closed = h.0.closed;
            same_events = h.0.same_events;
            counted = omega (arith, h.0.counted);
          },
          omega (arith, h.0.counted),
        ))
        (λ k b. (b, h.1, h.2))

  with_opened-IsSoundReplay :
      (now : Time) (r : OpenPositionRecord W) (w : Replay W)
      → IsGuarded r
      → IsSoundReplay w
      → IsSoundReplay (with_opened s fills samples ids config now r w)
  with_opened-IsSoundReplay now r w g h = (
    record {
      guarded = All-append _ w.open_positions _ h.0.guarded (g, tt);
      closed = h.0.closed;
      same_events = h.0.same_events;
      counted = omega (arith, h.0.counted, length-append w.open_positions (r ∷ []));
    },
    ap (λ (n : ℕ). suc n) h.1,
    omega (arith, h.2, length-append w.opened_trade_times (now ∷ [])),
  )

  open_position-IsSoundReplay :
      (now : Time) (c : SignalCandidate W) (e : ExecutableSignal W) (risk : RiskDecision W)
      (w : Replay W)
      → IsSoundReplay w
      → Holds IsSoundReplay (open_position s fills samples ids config now c e risk w)
  unfolding open_position open_record
  open_position-IsSoundReplay now c e risk w h =
      if_filled-Holds (λ _. Unit) IsSoundReplay (fills.simulate _ _ _ _) _ (any_fill _)
        (λ fill _. with_opened-IsSoundReplay now _ w (inl (refl, refl, refl, refl, refl)) h)

  open_allowed-IsSoundReplay :
      (now : Time) (c : SignalCandidate W) (e : ExecutableSignal W) (risk : RiskDecision W)
      (w : Replay W)
      → IsSoundReplay w
      → Holds IsSoundReplay (open_allowed s fills samples ids config now c e risk w)
  unfolding open_position
  open_allowed-IsSoundReplay now c e risk w h = elim (Bool-cases risk.allowed) [
    | inl f ↦ rw f (open_position-IsSoundReplay now c e risk w h)
    | inr f ↦ rw f h
  ]

  judge-IsSoundReplay :
      (now : Time) (c : SignalCandidate W) (w : Replay W)
      → IsSoundReplay w
      → Holds IsSoundReplay (judge s fills samples ids config now c w)
  unfolding judge
  judge-IsSoundReplay now c w h =
      let runtime = runtime_of s fills samples ids config now w in
      let r = evaluate_governance s.governance (governance_state runtime) c w.levels in
      elim (Option-cases (to_executable c r.0)) [
        | inl e ↦ rw (judge, e) h
        | inr (executable, e) ↦
            rw (judge, e)
              (open_allowed-IsSoundReplay now c executable
                (evaluate_risk s.risk (risk_state runtime) executable w.equity
                  (length w.open_positions))
                (record w { levels = r.1 }) h)
      ]

  decide_bar-IsSoundReplay :
      (snap : ReplaySnapshot W) (w : Replay W)
      → IsSoundReplay w
      → Holds IsSoundReplay (decide_bar s fills samples ids config snap w)
  unfolding decide_bar
  decide_bar-IsSoundReplay snap w h =
      let now = snap.snapshot.timestamp in
      elim (Option-cases (candidate_of s fills samples ids config snap w)) [
        | inl e ↦ rw (decide_bar, e) h
        | inr (c, e) ↦ rw (decide_bar, e) (judge-IsSoundReplay now _ _ h)
      ]

  pub replay_bar-IsSoundReplay :
      (snap : ReplaySnapshot W) (w : Replay W)
      → IsSoundReplay w
      → Holds IsSoundReplay (replay_bar s fills samples ids config snap w)
  unfolding replay_bar
  replay_bar-IsSoundReplay snap w h =
      if_filled-Holds IsSoundReplay IsSoundReplay
        (close_positions_if_needed s fills samples ids config (bar_of snap) _) _
        (close_positions-IsSoundReplay (bar_of snap) _ h)
        (λ w' h'.
          if_filled-Holds IsSoundReplay IsSoundReplay
            (decide_bar s fills samples ids config snap w') _ (decide_bar-IsSoundReplay snap w' h')
            (λ w'' h''. h''))
