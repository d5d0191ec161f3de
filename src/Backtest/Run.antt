-- ===== src/Backtest/Run.antt =====
-- backtest/backtest_runner.py, `run`: the replay of a list of snapshots, which the loader reads from
-- the database, without the rows that it writes at its end. The texts of the ids are arguments. The
-- runtime state is computed twice in a bar, and its first value is not read.
use btc_bot.Prelude.{
  Option, ℕ, suc, none, some, List, [], ◌∷◌, ◌++◌, ◌⊎◌, inr, map, length, if◌then◌else◌,
}
use btc_bot.Prelude.Double.{Double}
use btc_bot.Core.Models.{Features, Time, SignalCandidate, ExecutableSignal}
use btc_bot.Core.Features.History.{Histories, reset}
use btc_bot.Core.Features.Engine.{compute}
use btc_bot.Core.Regime.{classify as classify_regime}
use btc_bot.Core.Context.{classify as classify_context}
use btc_bot.Core.Signal.Diagnose.{generate}
use btc_bot.Core.Governance.{evaluate as evaluate_governance, to_executable}
use btc_bot.Core.Risk.{RiskDecision, evaluate as evaluate_risk}
use btc_bot.Core.Funding.{RawSample}
use btc_bot.Execution.Paper.{side_of}
use btc_bot.Orchestrator.World.{Settings}
use btc_bot.Backtest.Performance.{summarize}
use btc_bot.Backtest.Fill.{FillModel, FillError}
use btc_bot.Backtest.Positions.{OpenPositionRecord}
use btc_bot.Backtest.Exits.{force_close_record}
use btc_bot.Backtest.Runtime.{RuntimeState, governance_state, risk_state, compute_runtime_state}
use btc_bot.Backtest.Runner.{
  ReplaySnapshot, Ids, BacktestConfig, Replay, BacktestResult, Closing, bar_of, with_closed,
  if_filled, closing_of, with_closing, close_positions_if_needed, open_record,
}

module _ {W : Type 0} ⦃d : Double W⦄ (s : Settings W) (fills : FillModel W)
    (samples : List (RawSample W)) (ids : Ids) (config : BacktestConfig W) where
  open d use {add}

  abbrev pub runtime_of : Time → Replay W → RuntimeState W
  runtime_of now w =
      compute_runtime_state now w.opened_trade_times w.closed_records w.closed_pnl_events
        config.initial_equity

  -- `open_positions.append(self._open_position(...))` and what follows
  abbrev pub with_opened : Time → OpenPositionRecord W → Replay W → Replay W
  with_opened now r w = record w {
    open_positions = w.open_positions ++ (r ∷ []);
    opened_trade_times = w.opened_trade_times ++ (now ∷ []);
    position_counter = suc w.position_counter;
    trade_counter = suc w.trade_counter;
  }

  unfoldable pub open_position :
      Time
      → SignalCandidate W
      → ExecutableSignal W
      → RiskDecision W
      → Replay W
      → FillError W ⊎ Replay W
  unfolding open_record side_of
  open_position now candidate executable risk w =
      if_filled
        (fills.simulate executable.entry_price risk.size config.entry_order_type
          (side_of executable.direction))
        (λ fill. inr (
          with_opened now
            (open_record s fills samples ids config now candidate executable risk
              (suc w.position_counter) (suc w.trade_counter) fill)
            w))

  abbrev pub open_allowed :
      Time
      → SignalCandidate W
      → ExecutableSignal W
      → RiskDecision W
      → Replay W
      → FillError W ⊎ Replay W
  open_allowed now candidate executable risk w =
      if risk.allowed then open_position now candidate executable risk w else inr w

  -- The bar from the candidate on, which has its id
  unfoldable pub judge : Time → SignalCandidate W → Replay W → FillError W ⊎ Replay W
  unfolding evaluate_governance to_executable evaluate_risk open_position compute_runtime_state
  judge now candidate w =
      let runtime = runtime_of now w in
      let r = evaluate_governance s.governance (governance_state runtime) candidate w.levels in
      let w' = record w { levels = r.1 } in
      elim (to_executable candidate r.0) [
        | none ↦ inr w'
        | some executable ↦
            open_allowed now candidate executable
              (evaluate_risk s.risk (risk_state runtime) executable w'.equity
                (length w'.open_positions))
              w'
      ]

  abbrev pub numbered : Time → ℕ → SignalCandidate W → SignalCandidate W
  numbered now n c = record c { signal_id = ids.signal_id now n }

  abbrev pub features_of : ReplaySnapshot W → Replay W → Features W
  features_of snap w =
      (compute s.features w.histories snap.snapshot s.schema_version s.config_hash).0

  abbrev pub candidate_of : ReplaySnapshot W → Replay W → Option (SignalCandidate W)
  candidate_of snap w =
      let f = features_of snap w in
      generate s.signal ids.drawn f (classify_regime s.regime f) none
        (some (classify_context s.context f))

  abbrev pub with_histories : Histories W → Replay W → Replay W
  with_histories next w = record w { histories = next }

  abbrev pub with_signal : Replay W → Replay W
  with_signal w = record w { signal_counter = suc w.signal_counter }

  -- The bar after the exits
  unfoldable pub decide_bar : ReplaySnapshot W → Replay W → FillError W ⊎ Replay W
  unfolding compute classify_regime classify_context generate judge
  decide_bar snap w =
      let now = snap.snapshot.timestamp in
      let next = compute s.features w.histories snap.snapshot s.schema_version s.config_hash in
      let w' = with_histories next.1 w in
      elim (candidate_of snap w) [
        | none ↦ inr w'
        | some c ↦ judge now (numbered now (suc w'.signal_counter) c) (with_signal w')
      ]

  abbrev pub seen : ReplaySnapshot W → Replay W → Replay W
  seen snap w = record w { last_seen = some (snap.snapshot.timestamp, snap.snapshot.price) }

  abbrev pub curved : Time → Replay W → Replay W
  curved now w = record w { equity_curve = w.equity_curve ++ ((now, w.equity) ∷ []) }

  -- A turn of the loop of `run`
  unfoldable pub replay_bar : ReplaySnapshot W → Replay W → FillError W ⊎ Replay W
  unfolding close_positions_if_needed decide_bar
  replay_bar snap w =
      if_filled (close_positions_if_needed s fills samples ids config (bar_of snap) (seen snap w))
        (λ w'. if_filled (decide_bar snap w') (λ w''. inr (curved snap.snapshot.timestamp w'')))

  unfoldable pub replay : List (ReplaySnapshot W) → Replay W → FillError W ⊎ Replay W
  unfolding replay_bar
  replay [] w = inr w
  replay (snap ∷ snaps) w = if_filled (replay_bar snap w) (λ w'. replay snaps w')

  unfoldable pub force_loop :
      Time → W → List (OpenPositionRecord W) → Closing W → FillError W ⊎ Closing W
  unfolding force_close_record
  force_loop now price [] k = inr k
  force_loop now price (r ∷ rs) k =
      if_filled (force_close_record s.risk fills samples now price r)
        (λ t. force_loop now price rs (with_closed now t k))

  -- The end of `run` where positions are open
  abbrev pub force_close : Time → W → Replay W → FillError W ⊎ Replay W
  force_close now price w =
      if_filled (force_loop now price w.open_positions (closing_of s fills samples ids config w))
        (λ k. inr (curved now (with_closing s fills samples ids config k w)))

  abbrev pub closed_at_end :
      List (OpenPositionRecord W) → Option (Time × W) → Replay W → FillError W ⊎ Replay W
  closed_at_end [] seen_last w = inr w
  closed_at_end (r ∷ rs) none w = inr w
  closed_at_end (r ∷ rs) (some (now, price)) w = force_close now price w

  unfoldable pub finish_replay : Replay W → FillError W ⊎ Replay W
  unfolding force_loop
  finish_replay w = closed_at_end w.open_positions w.last_seen w

  unfoldable pub result_of : Replay W → BacktestResult W
  unfolding summarize
  result_of w =
      let trades = map (λ r. r.trade) w.closed_records in
      record {
        performance = summarize trades config.initial_equity;
        trades = trades;
        equity_curve = w.equity_curve;
      }

  abbrev pub start_replay : Replay W
  start_replay = record {
    open_positions = [];
    closed_records = [];
    opened_trade_times = [];
    closed_pnl_events = [];
    equity = config.initial_equity;
    equity_curve = [];
    last_seen = none;
    signal_counter = 0;
    position_counter = 0;
    trade_counter = 0;
    histories = reset;
    levels = [];
  }

  -- From the replay with nothing in it, or an error of a fill
  unfoldable pub run : List (ReplaySnapshot W) → FillError W ⊎ BacktestResult W
  unfolding replay finish_replay result_of
  run snaps =
      if_filled (if_filled (replay snaps start_replay) finish_replay) (λ w. inr (result_of w))
