-- ===== src/Orchestrator/Quiet.antt =====
-- orchestrator.py, `_run_event_loop`: the steps of a turn that decide nothing.
use btc_bot.Prelude.{
  ◌≡◌, refl, ◌∙◌, String, List, [], ◌∷◌, ◌⊎◌, inl, inr, ◌==◌, Bool-cases, Option-cases, Sum-cases,
}
use btc_bot.Prelude.Double.{Double}
use btc_bot.Core.Models.{Time, Position}
use btc_bot.Core.Funding.{RawSample}
use btc_bot.Storage.State.{get_open_trade_records}
use btc_bot.Storage.Queries.{date_of}
use btc_bot.Orchestrator.World.{Settings, World, Feed}
use btc_bot.Orchestrator.Guards.{
  HealthStatus, is_healthy, run_health_check, run_position_monitor_cycle, evaluate_kill_switch,
}
use btc_bot.Orchestrator.Schedule.{Schedule, is_due, handle_daily_rollover}
use btc_bot.Orchestrator.Loop.{LoopConfig, Turn, check_health, check_positions, with_kill_switch}

module _ {W : Type 0} where
  -- Neither the deadline of the decision nor the recorded outcomes change.
  pub record IsQuiet (r r' : Schedule × World W) : Type 0 where
    pub same_deadline : r'.0.next_decision_at ≡ r.0.next_decision_at
    pub same_outcomes : r'.1.decision_outcomes ≡ r.1.decision_outcomes

  pub quiet_trans : (r1 r2 r3 : Schedule × World W) → IsQuiet r1 r2 → IsQuiet r2 r3 → IsQuiet r1 r3
  quiet_trans r1 r2 r3 h k = record {
    same_deadline = k.same_deadline ∙ h.same_deadline;
    same_outcomes = k.same_outcomes ∙ h.same_outcomes;
  }

module _ {W : Type 0} ⦃d : Double W⦄ (s : Settings W) (c : LoopConfig W) where
  pub rollover-IsQuiet :
      (now : Time) (sch : Schedule) (w : World W)
      → IsQuiet (sch, w) (handle_daily_rollover s now (sch, w))
  unfolding handle_daily_rollover
  rollover-IsQuiet now sch w = elim (Option-cases sch.current_utc_day) [
    | inl e ↦ rw (handle_daily_rollover, e) (record { same_deadline = refl; same_outcomes = refl })
    | inr (day, e) ↦ elim (Bool-cases (date_of now == day)) [
      | inl f ↦
          rw (handle_daily_rollover, e, f) (record { same_deadline = refl; same_outcomes = refl })
      | inr f ↦
          rw (handle_daily_rollover, e, f) (record { same_deadline = refl; same_outcomes = refl })
    ]
  ]

  same_after_health :
      (status : HealthStatus) (now : Time) (w : World W)
      → (run_health_check s status now w).decision_outcomes ≡ w.decision_outcomes
  unfolding run_health_check
  same_after_health status now w = elim (Bool-cases (is_healthy status)) [
    | inl e ↦ rw (run_health_check, e) refl
    | inr e ↦ rw (run_health_check, e) refl
  ]

  pub check_health-IsQuiet :
      (t : Turn W) (r : Schedule × World W) → IsQuiet r (check_health s c t r)
  unfolding check_health
  check_health-IsQuiet t (sch, w) = elim (Bool-cases (is_due sch.next_health_at t.now)) [
    | inl e ↦
        rw (check_health, e)
          (record { same_deadline = refl; same_outcomes = same_after_health t.status t.now w })
    | inr e ↦ rw (check_health, e) (record { same_deadline = refl; same_outcomes = refl })
  ]

  same_after_monitor :
      (funding_rates : String → Time → Time → List (RawSample W)) (built : String ⊎ Feed W)
      (w : World W) (rs : List (String × Position W))
      → get_open_trade_records w.tables ≡ rs
      → (run_position_monitor_cycle s funding_rates built w).decision_outcomes ≡ w.decision_outcomes
  unfolding run_position_monitor_cycle
  same_after_monitor funding_rates built w [] e = rw (run_position_monitor_cycle, e) refl
  same_after_monitor funding_rates built w (r ∷ rs) e = elim (Sum-cases built) [
    | inl (exc, f) ↦ rw (run_position_monitor_cycle, e, f) refl
    | inr (feed, f) ↦ rw (run_position_monitor_cycle, e, f) refl
  ]

  pub check_positions-IsQuiet :
      (t : Turn W) (r : Schedule × World W) → IsQuiet r (check_positions s c t r)
  unfolding check_positions
  check_positions-IsQuiet t (sch, w) = elim (Bool-cases (is_due sch.next_monitor_at t.now)) [
    | inl e ↦
        rw (check_positions, e)
          (record {
            same_deadline = refl;
            same_outcomes = same_after_monitor t.inputs.funding_rates t.monitored w _ refl;
          })
    | inr e ↦ rw (check_positions, e) (record { same_deadline = refl; same_outcomes = refl })
  ]

  pub kill_switch-IsQuiet :
      (t : Turn W) (r : Schedule × World W) → IsQuiet r (with_kill_switch s c t r)
  unfolding evaluate_kill_switch
  kill_switch-IsQuiet t (sch, w) = record { same_deadline = refl; same_outcomes = refl }
