-- ===== src/Orchestrator/Loop.antt =====
-- orchestrator.py, `_run_event_loop`: its turns, each with what it takes from outside. The loop turns
-- until the stop event is set; what a turn waits at its end is a result.
use btc_bot.Prelude.{◌+◌, ◌*◌, Option, none, some, ℕ, String, List, [], ◌∷◌, ◌⊎◌, if◌then◌else◌}
use btc_bot.Prelude.Double.{Double}
use btc_bot.Core.Models.{Time, second}
use btc_bot.Orchestrator.World.{Settings, World, Feed, Inputs}
use btc_bot.Orchestrator.Cycle.{run_decision_cycle}
use btc_bot.Orchestrator.Guards.{
  KillReason, HealthStatus, run_health_check, run_position_monitor_cycle, evaluate_kill_switch,
}
use btc_bot.Orchestrator.Schedule.{
  Schedule, is_due, advance_decision_deadline, compute_sleep_seconds, handle_daily_rollover,
}

-- settings.py, `ExecutionConfig`
pub record LoopConfig (W : Type 0) : Type 0 where
  pub health_check_interval_seconds : ℕ
  pub position_monitor_interval_seconds : ℕ
  pub loop_idle_sleep_seconds : W

-- What a turn finds outside: the clock, the health, a snapshot for the monitor, and what a decision
-- cycle takes, and the texts of the limits of the kill switch.
pub record Turn (W : Type 0) : Type 0 where
  pub now : Time
  pub status : HealthStatus
  pub monitored : String ⊎ Feed W
  pub inputs : Inputs W
  pub limit_text : KillReason → String

module _ {W : Type 0} ⦃d : Double W⦄ (s : Settings W) (c : LoopConfig W) where
  -- what `run_decision_cycle(now=now)` takes
  abbrev pub inputs_of : Turn W → Inputs W
  inputs_of t = record t.inputs { now = t.now }

  unfoldable pub check_health : Turn W → Schedule × World W → Schedule × World W
  unfolding run_health_check
  check_health t (sch, w) =
      if is_due sch.next_health_at t.now
      then (
        record sch { next_health_at = some (t.now + second * c.health_check_interval_seconds) },
        run_health_check s t.status t.now w,
      )
      else (sch, w)

  unfoldable pub check_positions : Turn W → Schedule × World W → Schedule × World W
  unfolding run_position_monitor_cycle
  check_positions t (sch, w) =
      if is_due sch.next_monitor_at t.now
      then (
        record sch {
          next_monitor_at = some (t.now + second * c.position_monitor_interval_seconds);
        },
        run_position_monitor_cycle s t.inputs.funding_rates t.monitored w,
      )
      else (sch, w)

  abbrev pub advanced : Option Time → Time → Option Time
  advanced none now = none
  advanced (some at) now = some (advance_decision_deadline at now)

  unfoldable pub check_decision : Turn W → Schedule × World W → Schedule × World W
  unfolding run_decision_cycle advance_decision_deadline
  check_decision t (sch, w) =
      if is_due sch.next_decision_at t.now
      then (
        record sch { next_decision_at = advanced sch.next_decision_at t.now },
        (run_decision_cycle s (inputs_of t) w).1,
      )
      else (sch, w)

  abbrev pub with_kill_switch : Turn W → Schedule × World W → Schedule × World W
  with_kill_switch t (sch, w) = (sch, evaluate_kill_switch s t.limit_text t.now w)

  unfoldable pub turn : Turn W → Schedule × World W → Schedule × World W
  unfolding handle_daily_rollover check_health check_positions check_decision evaluate_kill_switch
  turn t r =
      with_kill_switch t
        (check_decision t (check_positions t (check_health t (handle_daily_rollover s t.now r))))

  abbrev pub sleep_after : Turn W → Schedule × World W → W
  sleep_after t r = compute_sleep_seconds c.loop_idle_sleep_seconds (turn t r).0 t.now

  unfoldable pub run_event_loop : List (Turn W) → Schedule × World W → Schedule × World W
  unfolding turn
  run_event_loop [] r = r
  run_event_loop (t ∷ ts) r = run_event_loop ts (turn t r)
