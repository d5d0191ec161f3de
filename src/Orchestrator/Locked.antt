-- ===== src/Orchestrator/Locked.antt =====
-- orchestrator.py, `_run_event_loop`: what safe mode stops.
use mathlib.Core.List.{append-nil, append_assoc}
use btc_bot.Prelude.{
  ◌≡◌, refl, sym, ap, ◌∙◌, true, List, [], ◌∷◌, ◌++◌, ◌⊎◌, inl, inr, String, All, All-append,
  Bool-cases, Option-cases, Sum-cases, leb, ◌==◌, suc,
}
use btc_bot.Prelude.Double.{Double}
use btc_bot.Core.Models.{Time, Position}
use btc_bot.Core.Funding.{RawSample}
use btc_bot.Storage.SafeMode.{view}
use btc_bot.Storage.Frame.{sync-keeps}
use btc_bot.Storage.State.{get_open_trade_records}
use btc_bot.Storage.Queries.{date_of}
use btc_bot.Orchestrator.World.{Settings, World, Feed, Inputs, OutcomeGroup, DecisionOutcome}
use btc_bot.Orchestrator.Cycle.{run_decision_cycle}
use btc_bot.Orchestrator.Engine.{KeepsThrough}
use btc_bot.Orchestrator.Exits.{lifecycle-keeps}
use btc_bot.Orchestrator.Ends.{IsOpened, run_decision_cycle_ends}
use btc_bot.Orchestrator.Guards.{
  HealthStatus, is_healthy, run_health_check, run_position_monitor_cycle, evaluate_kill_switch,
}
use btc_bot.Orchestrator.KillSwitch.{activate_safe_mode-on, evaluate_kill_switch_iff}
use btc_bot.Orchestrator.Schedule.{Schedule, is_due, handle_daily_rollover}
use btc_bot.Orchestrator.Loop.{
  LoopConfig, Turn, inputs_of, check_health, check_positions, check_decision, turn, run_event_loop,
}

module _ {W : Type 0} where
  abbrev pub IsOn : World W → Type 0
  IsOn w = (view w.tables).0 ≡ true

  -- The bot was in safe mode and is, and no outcome that is recorded from `w` on is that of a trade
  -- that was opened.
  pub record IsLocked (w w' : World W) : Type 0 where
    pub outcomes : List DecisionOutcome
    pub recorded : w'.decision_outcomes ≡ w.decision_outcomes ++ outcomes
    pub opens_nothing : All (λ o. o.outcome_group ≡ OutcomeGroup.signal_generated → ⊥) outcomes
    pub still_on : IsOn w'

  -- A step that records nothing
  silent : (w w' : World W) → w'.decision_outcomes ≡ w.decision_outcomes → IsOn w' → IsLocked w w'
  silent w w' e h = record {
    outcomes = [];
    recorded = e ∙ sym (append-nil w.decision_outcomes);
    opens_nothing = tt;
    still_on = h;
  }

  followed : (w1 w2 w3 : World W) → IsLocked w1 w2 → IsLocked w2 w3 → IsLocked w1 w3
  followed w1 w2 w3 h k = record {
    outcomes = h.outcomes ++ k.outcomes;
    recorded =
        k.recorded
        ∙ ap (λ os. os ++ k.outcomes) h.recorded
        ∙ append_assoc w1.decision_outcomes h.outcomes k.outcomes;
    opens_nothing = All-append _ h.outcomes k.outcomes h.opens_nothing k.opens_nothing;
    still_on = k.still_on;
  }

module _ {W : Type 0} ⦃d : Double W⦄ (s : Settings W) (c : LoopConfig W) where
  rollover-IsLocked :
      (now : Time) (sch : Schedule) (w : World W)
      → IsOn w
      → IsLocked w (handle_daily_rollover s now (sch, w)).1
  unfolding handle_daily_rollover
  rollover-IsLocked now sch w h = elim (Option-cases sch.current_utc_day) [
    | inl e ↦ rw (handle_daily_rollover, e) (silent w w refl h)
    | inr (day, e) ↦ elim (Bool-cases (date_of now == day)) [
      | inl f ↦ rw (handle_daily_rollover, e, f) (silent w w refl h)
      | inr f ↦
          rw (handle_daily_rollover, e, f)
            (silent w _ refl (ap (λ v. v.0) (sync-keeps s.store day w.tables).same_view ∙ h))
    ]
  ]

  run_health_check-IsLocked :
      (status : HealthStatus) (now : Time) (w : World W)
      → IsOn w
      → IsLocked w (run_health_check s status now w)
  unfolding run_health_check
  run_health_check-IsLocked status now w h = elim (Bool-cases (is_healthy status)) [
    | inl e ↦ rw (run_health_check, e) (silent w _ refl h)
    | inr e ↦
        elim (Bool-cases
          (leb s.health_failures_before_safe_mode (suc w.consecutive_health_failures))) [
            | inl f ↦
                rw (run_health_check, e, f)
                  (silent w _ refl
                    (activate_safe_mode-on s "health_check_failure_threshold" now w.tables))
            | inr f ↦ rw (run_health_check, e, f) (silent w _ refl h)
          ]
  ]

  monitor-IsLocked :
      (funding_rates : String → Time → Time → List (RawSample W)) (built : String ⊎ Feed W)
      (w : World W) (rs : List (String × Position W))
      → get_open_trade_records w.tables ≡ rs
      → IsOn w
      → IsLocked w (run_position_monitor_cycle s funding_rates built w)
  unfolding run_position_monitor_cycle
  monitor-IsLocked funding_rates built w [] e h =
      rw (run_position_monitor_cycle, e) (silent w w refl h)
  monitor-IsLocked funding_rates built w (r ∷ rs) e h = elim (Sum-cases built) [
    | inl (exc, f) ↦ rw (run_position_monitor_cycle, e, f) (silent w w refl h)
    | inr (feed, f) ↦
        let kept = lifecycle-keeps s funding_rates feed w.tables in
        rw (run_position_monitor_cycle, e, f) (silent w _ refl (ap (λ v. v.0) kept.same_view ∙ h))
  ]

  decision-IsLocked :
      (i : Inputs W)
      → KeepsThrough i.engine
      → (w : World W) → IsOn w
      → IsLocked w (run_decision_cycle s i w).1
  decision-IsLocked i keeps w h =
      let ended = run_decision_cycle_ends s i keeps w in
      let awake : IsOpened s i w → ⊥ = (λ o. absurd (cc (h, o.awake))) in
      record {
        outcomes = ended.outcome ∷ [];
        recorded = ended.recorded;
        opens_nothing = ((λ g. awake (ended.opened (sym ended.same_group ∙ g))), tt);
        still_on = ap (λ v. v.0) ended.kept.same_view ∙ h;
      }

  kill_switch-IsLocked :
      (t : Turn W) (w : World W) → IsOn w → IsLocked w (evaluate_kill_switch s t.limit_text t.now w)
  unfolding evaluate_kill_switch
  kill_switch-IsLocked t w h =
      silent w _ refl ((evaluate_kill_switch_iff s t.limit_text t.now w).1 (inl h))

  -- The steps of a turn, each for its own part of the schedule
  check_health-IsLocked :
      (t : Turn W) (sch : Schedule) (w : World W)
      → IsOn w
      → IsLocked w (check_health s c t (sch, w)).1
  unfolding check_health
  check_health-IsLocked t sch w h = elim (Bool-cases (is_due sch.next_health_at t.now)) [
    | inl e ↦ rw (check_health, e) (run_health_check-IsLocked t.status t.now w h)
    | inr e ↦ rw (check_health, e) (silent w w refl h)
  ]

  check_positions-IsLocked :
      (t : Turn W) (sch : Schedule) (w : World W)
      → IsOn w
      → IsLocked w (check_positions s c t (sch, w)).1
  unfolding check_positions
  check_positions-IsLocked t sch w h = elim (Bool-cases (is_due sch.next_monitor_at t.now)) [
    | inl e ↦
        rw (check_positions, e) (monitor-IsLocked t.inputs.funding_rates t.monitored w _ refl h)
    | inr e ↦ rw (check_positions, e) (silent w w refl h)
  ]

  check_decision-IsLocked :
      (t : Turn W) (sch : Schedule) (w : World W)
      → KeepsThrough t.inputs.engine
      → IsOn w
      → IsLocked w (check_decision s c t (sch, w)).1
  unfolding check_decision
  check_decision-IsLocked t sch w keeps h = elim (Bool-cases (is_due sch.next_decision_at t.now)) [
    | inl e ↦ rw (check_decision, e) (decision-IsLocked (inputs_of s c t) keeps w h)
    | inr e ↦ rw (check_decision, e) (silent w w refl h)
  ]

  turn-IsLocked :
      (t : Turn W) (r : Schedule × World W)
      → KeepsThrough t.inputs.engine
      → IsOn r.1
      → IsLocked r.1 (turn s c t r).1
  unfolding turn
  turn-IsLocked t (sch, w) keeps h =
      let r1 = handle_daily_rollover s t.now (sch, w) in
      let r2 = check_health s c t r1 in
      let r3 = check_positions s c t r2 in
      let r4 = check_decision s c t r3 in
      let h1 = rollover-IsLocked t.now sch w h in
      let h2 = check_health-IsLocked t r1.0 r1.1 h1.still_on in
      let h3 = check_positions-IsLocked t r2.0 r2.1 h2.still_on in
      let h4 = check_decision-IsLocked t r3.0 r3.1 keeps h3.still_on in
      let h5 = kill_switch-IsLocked t r4.1 h4.still_on in
      followed w r1.1 _ h1
        (followed r1.1 r2.1 _ h2 (followed r2.1 r3.1 _ h3 (followed r3.1 r4.1 _ h4 h5)))

  -- Where the execution engines leave safe mode alone and the bot is in safe mode, it is after any
  -- turns of the event loop, and no decision outcome that they record is that of a trade that was
  -- opened.
  pub run_event_loop-IsLocked :
      (ts : List (Turn W)) (r : Schedule × World W)
      → All (λ t. KeepsThrough t.inputs.engine) ts
      → IsOn r.1
      → IsLocked r.1 (run_event_loop s c ts r).1
  unfolding run_event_loop
  run_event_loop-IsLocked [] r keeps h = silent r.1 r.1 refl h
  run_event_loop-IsLocked (t ∷ ts) r (keep, keeps) h =
      let first = turn-IsLocked t r keep h in
      followed r.1 (turn s c t r).1 _ first
        (run_event_loop-IsLocked ts (turn s c t r) keeps first.still_on)
