-- ===== src/Orchestrator/Cycle.antt =====
-- orchestrator.py, `run_decision_cycle`: one pass of a snapshot through the engines. The outcome group
-- that the cycle ends with is returned beside the state.
use Prim.Native.String.{◌++◌ as append}
use btc_bot.Prelude.{
  ℕ, suc, Bool, false, not, ◌&&◌, String, Option, none, some, [], ◌∷◌, ◌++◌, inl, inr, leb,
  if◌then◌else◌,
}
use btc_bot.Prelude.Double.{Double, nought}
use btc_bot.Core.Models.{
  BotMode, BotState, RegimeState, Features, SignalCandidate, ExecutableSignal, MarketContext,
}
use btc_bot.Core.Features.Engine.{compute}
use btc_bot.Core.Regime.{classify as classify_regime}
use btc_bot.Core.Context.{classify as classify_context}
use btc_bot.Core.Signal.Diagnose.{diagnose, generate}
use btc_bot.Core.Governance.{evaluate as evaluate_governance, to_executable}
use btc_bot.Core.Risk.{RiskConfig, RiskDecision, evaluate as evaluate_risk}
use btc_bot.Execution.Paper.{Quotes}
use btc_bot.Storage.Tables.{Tables}
use btc_bot.Storage.Runtime.{load, refresh_runtime_state}
use btc_bot.Storage.State.{
  get_governance_state, get_risk_state, get_open_positions, mark_error, mark_healthy,
}
use btc_bot.Storage.Trades.{StoreError, TradeLabels, record_trade_open}
use btc_bot.Orchestrator.World.{Settings, World, Feed, Inputs, OutcomeGroup, DecisionOutcome}
use btc_bot.Orchestrator.Lifecycle.{process_trade_lifecycle}

-- the texts of the three RuntimeErrors, without the price
abbrev store_error_text : StoreError → String
store_error_text (StoreError.no_position_found s) = append "No position found for signal_id=" s
store_error_text (StoreError.invalid_filled_entry_price s) =
    append "Invalid filled entry price for signal_id=" s
store_error_text (StoreError.no_open_trade_log_row s) =
    append "No open trade_log row for position_id=" s

module _ {W : Type 0} where
  abbrev pub is_safe_mode : Option (BotState W) → Bool
  is_safe_mode none = false
  is_safe_mode (some s) = s.safe_mode

  -- `_record_decision_outcome`, and the tables that the cycle leaves
  abbrev pub record_decision_outcome : DecisionOutcome → Tables W → World W → World W
  record_decision_outcome o t w = record w {
    tables = t;
    decision_outcomes = w.decision_outcomes ++ (o ∷ []);
  }

  abbrev pub plain_outcome : Inputs W → OutcomeGroup → DecisionOutcome
  plain_outcome i g = record {
    cycle_timestamp = i.now;
    outcome_group = g;
    regime = none;
    signal_id = none;
  }

  abbrev pub candidate_outcome : Inputs W → OutcomeGroup → SignalCandidate W → DecisionOutcome
  candidate_outcome i g c = record {
    cycle_timestamp = i.now;
    outcome_group = g;
    regime = some c.regime;
    signal_id = some c.signal_id;
  }

module _ {W : Type 0} ⦃d : Double W⦄ (s : Settings W) (i : Inputs W) where
  open d use {of_nat, le, lt}

  -- what a mode that is not PAPER passes to the engine
  unfoldable pub quotes_of : Feed W → Quotes W
  quotes_of feed = elim s.mode [
    | BotMode.paper ↦ record {
      snapshot_price = some feed.snapshot.price;
      bid_price = some feed.bid;
      ask_price = some feed.ask;
      snapshot_id = some feed.snapshot_id;
    }
    | BotMode.live ↦ record {
      snapshot_price = none;
      bid_price = none;
      ask_price = none;
      snapshot_id = none;
    }
  ]

  -- the `except` of the execution
  unfoldable pub execution_failed :
      SignalCandidate W → String → Tables W → World W → OutcomeGroup × World W
  unfolding mark_error
  execution_failed c exc t w =
      let w' = record w { critical_execution_errors = suc w.critical_execution_errors } in
      let t' = mark_error s.store (append "execution_failed:" exc) i.marked_at t in
      (
        OutcomeGroup.execution_failed,
        record_decision_outcome (candidate_outcome i OutcomeGroup.execution_failed c) t' w',
      )

  abbrev pub labels : TradeLabels
  labels = record {
    trade_id = i.trade_id;
    schema_version = s.schema_version;
    config_hash = s.config_hash;
  }

  -- the `try` of the execution, after `execute_signal`
  unfoldable pub record_fill :
      SignalCandidate W → ExecutableSignal W → Tables W → World W → OutcomeGroup × World W
  unfolding record_trade_open mark_healthy execution_failed
  record_fill c executable t w = elim (record_trade_open s.store labels c executable none t) [
    | inl e ↦ execution_failed c (store_error_text e) t w
    | inr r ↦
        let g = OutcomeGroup.signal_generated in
        (
          g,
          record_decision_outcome (candidate_outcome i g c) (mark_healthy s.store i.marked_at r.1)
              w,
        )
  ]

  unfoldable pub execute :
      Feed W
      → SignalCandidate W
      → ExecutableSignal W
      → RiskDecision W
      → Tables W
      → World W
      → OutcomeGroup × World W
  unfolding quotes_of record_fill execution_failed
  execute feed c executable risk t w =
      let r = i.engine.execute_signal executable risk.size risk.leverage (quotes_of feed) t in
      elim r.0 [ some exc ↦ execution_failed c exc r.1 w | none ↦ record_fill c executable r.1 w ]

  -- a cycle that ends before the execution, and is healthy
  abbrev pub settle_healthy :
      OutcomeGroup → DecisionOutcome → Tables W → World W → OutcomeGroup × World W
  settle_healthy g o t w = (g, record_decision_outcome o (mark_healthy s.store i.marked_at t) w)

  -- `RiskEngine.evaluate` comes as far as its state provider.
  abbrev pub asks_state : RiskConfig W → ExecutableSignal W → W → ℕ → Bool
  asks_state c signal equity open_positions =
      not (le equity nought)
      && not (leb c.max_open_positions open_positions)
      && not (lt signal.rr_ratio c.min_rr)

  -- `REFERENCE_EQUITY`
  abbrev pub account : W
  account = of_nat 10_000

  -- the risk decision, and the tables after it
  unfoldable pub decide_risk : ExecutableSignal W → Tables W → RiskDecision W × Tables W
  unfolding get_risk_state get_open_positions evaluate_risk
  decide_risk executable t =
      let open_positions = get_open_positions t in
      let r = get_risk_state s.store i.risk_at t in
      (
        evaluate_risk s.risk r.0 executable account open_positions,
        (if asks_state s.risk executable account open_positions then r.1 else t),
      )

  -- the cycle from the executable signal on
  unfoldable pub size_signal :
      Feed W → SignalCandidate W → ExecutableSignal W → Tables W → World W → OutcomeGroup × World W
  unfolding decide_risk execute mark_healthy
  size_signal feed c executable t w =
      let r = decide_risk executable t in
      if not r.0.allowed
      then settle_healthy OutcomeGroup.risk_block (candidate_outcome i OutcomeGroup.risk_block c)
          r.1 w
      else execute feed c executable r.0 r.1 w

  -- The cycle from the candidate on. `to_executable` raises for a decision that is not approved,
  -- which leaves the outcome unknown.
  unfoldable pub judge_candidate :
      Feed W → SignalCandidate W → Tables W → World W → OutcomeGroup × World W
  unfolding get_governance_state evaluate_governance to_executable size_signal mark_healthy
  judge_candidate feed c t w =
      let g = get_governance_state s.store i.governance_at t in
      let r = evaluate_governance s.governance g.0 c w.levels in
      let w' = record w { levels = r.1 } in
      if not r.0.approved
      then settle_healthy OutcomeGroup.governance_veto
          (candidate_outcome i OutcomeGroup.governance_veto c) g.1 w'
      else elim (to_executable c r.0) [
        | none ↦ (OutcomeGroup.unknown, record w' { tables = g.1 })
        | some executable ↦ size_signal feed c executable g.1 w'
      ]

  -- the features of the snapshot, and what the engines make of them
  abbrev pub features_of : Feed W → World W → Features W
  features_of feed w =
      (compute s.features w.histories feed.snapshot s.schema_version s.config_hash).0

  abbrev pub regime_of : Feed W → World W → RegimeState
  regime_of feed w = classify_regime s.regime (features_of feed w)

  abbrev pub context_of : Feed W → World W → MarketContext
  context_of feed w = classify_context s.context (features_of feed w)

  abbrev pub candidate_of : Feed W → World W → Option (SignalCandidate W)
  candidate_of feed w =
      let f = features_of feed w in
      let context = some (context_of feed w) in
      generate s.signal i.new_id f (regime_of feed w)
        (some (diagnose s.signal f (regime_of feed w) context)) context

  -- the cycle outside safe mode
  unfoldable pub decide : Feed W → Tables W → World W → OutcomeGroup × World W
  unfolding compute classify_regime classify_context diagnose generate judge_candidate mark_healthy
  decide feed t w =
      let next = compute s.features w.histories feed.snapshot s.schema_version s.config_hash in
      let w' = record w { histories = next.1 } in
      elim (candidate_of feed w) [
        | none ↦
            settle_healthy OutcomeGroup.no_signal
              (record (plain_outcome i OutcomeGroup.no_signal) { regime = some (regime_of feed w) })
              t w'
        | some c ↦ judge_candidate feed c t w'
      ]

  -- a cycle that cannot go on
  abbrev pub give_up : OutcomeGroup → String → Tables W → World W → OutcomeGroup × World W
  give_up g message t w =
      (g, record_decision_outcome (plain_outcome i g) (mark_error s.store message i.marked_at t) w)

  -- the cycle from the snapshot on
  unfoldable pub run_on : Feed W → Tables W → World W → OutcomeGroup × World W
  unfolding process_trade_lifecycle decide load mark_error
  run_on feed t w =
      let life = process_trade_lifecycle s i.funding_rates feed t in
      elim life.error [
        | some e ↦
            give_up OutcomeGroup.lifecycle_failed (append "lifecycle_failed:" (store_error_text e))
              life.tables w
        | none ↦
            if is_safe_mode (load life.tables)
            then (
              OutcomeGroup.safe_mode_skip,
              record_decision_outcome (plain_outcome i OutcomeGroup.safe_mode_skip) life.tables w,
            )
            else decide feed life.tables w
      ]

  unfoldable pub run_decision_cycle : World W → OutcomeGroup × World W
  unfolding run_on refresh_runtime_state mark_error
  run_decision_cycle w =
      let t = (refresh_runtime_state s.store i.now w.tables).1 in
      elim i.built [
        | inl exc ↦ give_up OutcomeGroup.snapshot_failed (append "snapshot_build_failed:" exc) t w
        | inr feed ↦ run_on feed t w
      ]
