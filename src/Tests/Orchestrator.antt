-- ===== src/Tests/Orchestrator.antt =====
-- Examples for the orchestrator.
use btc_bot.Prelude.{
  none, false, ◌≡◌, ◌↔◌, ◌⊎◌, refl, ◌≤◌, ◌<◌, true, List, some, [], ◌∷◌, map, inl, inr, ◌+◌,
}
use btc_bot.Prelude.Fixed.{ℤ, fixed_double}
use btc_bot.Core.Models.{Time, hours, minutes, BotMode}
use btc_bot.Core.Features.History.{reset}
use btc_bot.Storage.Tables.{no_rows}
use btc_bot.Storage.State.{set_safe_mode}
use btc_bot.Storage.SafeMode.{view}
use btc_bot.Orchestrator.World.{Settings, World, Feed, Inputs, OutcomeGroup}
use btc_bot.Orchestrator.Cycle.{run_decision_cycle}
use btc_bot.Orchestrator.Engine.{paper_engine, paper_engine-keeps}
use btc_bot.Orchestrator.Opens.{IsEnded}
use btc_bot.Orchestrator.Ends.{IsOpened, run_decision_cycle_ends}
use btc_bot.Orchestrator.Guards.{evaluate_kill_switch}
use btc_bot.Orchestrator.KillSwitch.{IsExceeded, evaluate_kill_switch_iff}
use btc_bot.Orchestrator.Schedule.{
  is_15m_boundary, advance_decision_deadline, next_15m_boundary, initialize_runtime_schedule,
}
use btc_bot.Execution.Recovery.{ExchangeSync}
use btc_bot.Orchestrator.Start.{Startup, start}
use btc_bot.Orchestrator.Suspect.{start-IsLocked}
use btc_bot.Orchestrator.Locked.{IsLocked}
use btc_bot.Orchestrator.Spaced.{IsPaced, run_event_loop-IsPaced}
use btc_bot.Orchestrator.Loop.{LoopConfig, Turn, run_event_loop}
use btc_bot.Orchestrator.Deadline.{deadline_next_boundary}
use btc_bot.Tests.Samples.{whole, signal_config, governance_config, risk_config}
use btc_bot.Tests.Features.{config, snapshot}
use btc_bot.Tests.Market.{regime_config, context_config}
use btc_bot.Tests.Execution.{draw}
use btc_bot.Tests.Recovery.{coordinator}
use btc_bot.Tests.Storage.{store}

abbrev pub settings : Settings ℤ
settings = record {
  mode = BotMode.paper;
  schema_version = "v1";
  config_hash = "h";
  features = config;
  regime = regime_config;
  context = context_config;
  signal = signal_config;
  governance = governance_config;
  risk = risk_config;
  store = store;
  kill_switch_max_exec_errors = 2;
  health_failures_before_safe_mode = 10;
}

abbrev feed : Feed ℤ
feed = record {
  snapshot = snapshot;
  open_times = [];
  snapshot_id = "ms-1";
  bid = whole 102;
  ask = whole 104;
}

abbrev inputs : Inputs ℤ
inputs = record {
  now = hours 10;
  governance_at = hours 10;
  risk_at = hours 10;
  marked_at = hours 10;
  built = inr feed;
  new_id = "sig-1";
  trade_id = "trd-1";
  funding_rates = λ symbol start stop. [];
  engine = paper_engine draw "BTCUSDT" (λ e. "paper_fill");
}

abbrev world : World ℤ
world = record {
  tables = no_rows;
  histories = reset;
  levels = [];
  decision_outcomes = [];
  critical_execution_errors = 3;
  consecutive_health_failures = 0;
}

run_decision_cycle_ends_example :
    IsEnded
      (hours 10)
      []
      no_rows
      (IsOpened settings inputs world)
      (run_decision_cycle settings inputs world)
run_decision_cycle_ends_example =
    run_decision_cycle_ends settings inputs (paper_engine-keeps draw "BTCUSDT" (λ e. "paper_fill"))
      world

-- Without a snapshot the cycle ends early.
no_snapshot :
    (run_decision_cycle settings (record inputs { built = inl "timeout" }) world).0
    ≡ OutcomeGroup.snapshot_failed
unfolding run_decision_cycle
no_snapshot = refl

evaluate_kill_switch_iff_example :
    ((view
        (evaluate_kill_switch settings
          (λ r. "critical_execution_errors>2")
          (hours 10)
          world).tables).0
      ≡ true)
    ↔ (((view {W = ℤ} no_rows).0 ≡ true) ⊎ IsExceeded settings (hours 10) world)
evaluate_kill_switch_iff_example =
    evaluate_kill_switch_iff settings (λ r. "critical_execution_errors>2") (hours 10) world

deadline_next_boundary_example :
    let r = advance_decision_deadline (hours 10) (hours 11 + 1) in
    ((first : Time) × ((initialize_runtime_schedule (hours 10 + 5)).next_decision_at ≡ some first)
      × (is_15m_boundary first ≡ true)
      × (hours 10 + 5 ≤ first)
      × (first < hours 10 + 5 + minutes 15))
    × (is_15m_boundary r ≡ true)
    × (hours 11 + 1 < r)
    × (hours 10 ≤ hours 11 + 1 → r ≤ hours 11 + 1 + minutes 15)
    × (hours 11 + 1 < hours 10 → r ≡ hours 10)
unfolding is_15m_boundary
deadline_next_boundary_example =
    deadline_next_boundary (hours 10 + 5) (hours 10) (hours 11 + 1) refl

next_deadline : advance_decision_deadline (hours 10) (hours 11 + 1) ≡ hours 11 + minutes 15
unfolding advance_decision_deadline
next_deadline = refl

first_deadline : next_15m_boundary (hours 10 + minutes 50) ≡ hours 11
unfolding next_15m_boundary
first_deadline = refl

-- A bot in safe mode whose decision is due
abbrev stopped : World ℤ
stopped = record world {
  tables = (set_safe_mode store true (some "daily_dd>0.0300") (hours 9) no_rows).1;
}

abbrev loop_config : LoopConfig ℤ
loop_config = record {
  health_check_interval_seconds = 30;
  position_monitor_interval_seconds = 15;
  loop_idle_sleep_seconds = whole 1;
}

abbrev first_turn : Turn ℤ
first_turn = record {
  now = hours 10;
  status = record { websocket_alive = true; db_writable = true; exchange_reachable = false };
  monitored = inr feed;
  inputs = inputs;
  limit_text = λ r. "critical_execution_errors>2";
}

abbrev turns : List (Turn ℤ)
turns = first_turn ∷ record first_turn { now = hours 10 + minutes 15 } ∷ []

-- Both turns run a cycle.
two_cycles :
    map
      (λ o. o.outcome_group)
      (run_event_loop settings loop_config turns
        (initialize_runtime_schedule (hours 10), stopped)).1.decision_outcomes
    ≡ (OutcomeGroup.safe_mode_skip ∷ OutcomeGroup.safe_mode_skip ∷ [])
unfolding set_safe_mode run_event_loop initialize_runtime_schedule
two_cycles = refl

-- A start whose exchange does not answer
abbrev startup : Startup ℤ
startup = record {
  startup_ts = hours 10;
  text_before = λ a b. false;
  oi_rows = [];
  cvd_rows = [];
  coordinator = coordinator;
  exchange_sync = ExchangeSync.failed "timeout";
  synced_at = hours 10;
  feed_error = none;
  scheduled_at = hours 10;
  turns = turns;
}

start-IsLocked_example : IsLocked world (start settings loop_config startup world).1.1
start-IsLocked_example =
    start-IsLocked settings loop_config startup world
      (
        paper_engine-keeps draw "BTCUSDT" (λ e. "paper_fill"),
        (paper_engine-keeps draw "BTCUSDT" (λ e. "paper_fill"), tt),
      )
      (inl tt)

started_locked :
    map (λ o. o.outcome_group) (start settings loop_config startup world).1.1.decision_outcomes
    ≡ (OutcomeGroup.safe_mode_skip ∷ OutcomeGroup.safe_mode_skip ∷ [])
unfolding start
started_locked = refl

run_event_loop-IsPaced_example :
    IsPaced
      (hours 10)
      2
      world
      (run_event_loop settings loop_config turns (initialize_runtime_schedule (hours 10), world)).1
unfolding initialize_runtime_schedule is_15m_boundary
run_event_loop-IsPaced_example =
    run_event_loop-IsPaced settings loop_config turns
      (initialize_runtime_schedule (hours 10), world) (hours 10)
      (
        paper_engine-keeps draw "BTCUSDT" (λ e. "paper_fill"),
        (paper_engine-keeps draw "BTCUSDT" (λ e. "paper_fill"), tt),
      )
      refl refl
