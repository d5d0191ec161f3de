-- ===== src/Orchestrator/Start.antt =====
-- orchestrator.py, `start`: the bootstrap of the feature engine, the recovery, the data feeds, and the
-- event loop until it is stopped. The rows of the bootstrap are read from tables that are not
-- modelled.
use btc_bot.Prelude.{String, Bool, Option, none, some, List}
use btc_bot.Prelude.Double.{Double}
use btc_bot.Core.Models.{Time}
use btc_bot.Core.Features.History.{Row, bootstrap_oi_history, bootstrap_cvd_price_history}
use btc_bot.Storage.Runtime.{ensure_initialized, refresh_runtime_state}
use btc_bot.Execution.Recovery.{Coordinator, ExchangeSync, RecoveryReport, run_startup_sync}
use btc_bot.Orchestrator.World.{Settings, World}
use btc_bot.Orchestrator.Guards.{feed_start_failed}
use btc_bot.Orchestrator.Schedule.{Schedule, initialize_runtime_schedule}
use btc_bot.Orchestrator.Loop.{LoopConfig, Turn, run_event_loop}

-- What a start takes from outside: the readings of the clock, the rows of the bootstrap with the
-- order of their texts, what the exchange answers, and the turns until the stop
pub record Startup (W : Type 0) : Type 0 where
  pub startup_ts : Time
  pub text_before : String → String → Bool
  pub oi_rows : List (Row (Option W))
  pub cvd_rows : List (Row (Option W × Option W))
  pub coordinator : Coordinator
  pub exchange_sync : ExchangeSync W
  pub synced_at : Time
  -- The exception of the data feeds, and when it is handled
  pub feed_error : Option (String × Time)
  pub scheduled_at : Time
  pub turns : List (Turn W)

module _ {W : Type 0} ⦃d : Double W⦄ (s : Settings W) (c : LoopConfig W) where
  unfoldable pub bootstrap_feature_engine_history : Startup W → World W → World W
  unfolding bootstrap_oi_history bootstrap_cvd_price_history
  bootstrap_feature_engine_history i w =
      let oi = bootstrap_oi_history i.text_before i.oi_rows w.histories in
      record w {
        histories = (bootstrap_cvd_price_history s.features i.text_before i.cvd_rows oi.0).0;
      }

  -- Up to the recovery, with the tables after it
  unfoldable pub recover : Startup W → World W → RecoveryReport × World W
  unfolding bootstrap_feature_engine_history ensure_initialized refresh_runtime_state
      run_startup_sync
  recover i w =
      let initialized = (ensure_initialized s.store w.tables).1 in
      let refreshed = (refresh_runtime_state s.store i.startup_ts initialized).1 in
      let r = run_startup_sync i.coordinator i.exchange_sync s.store i.synced_at refreshed in
      (r.0, record (bootstrap_feature_engine_history i w) { tables = r.1 })

  unfoldable pub start_data_feeds : Startup W → World W → World W
  unfolding feed_start_failed
  start_data_feeds i w = elim i.feed_error [
    | none ↦ w
    | some (exc, at) ↦ feed_start_failed s exc at w
  ]

  unfoldable pub start : Startup W → World W → RecoveryReport × (Schedule × World W)
  unfolding recover start_data_feeds initialize_runtime_schedule run_event_loop
  start i w =
      let recovered = recover i w in
      (
        recovered.0,
        run_event_loop s c i.turns
            (initialize_runtime_schedule i.scheduled_at, start_data_feeds i recovered.1),
      )
