-- ===== src/Orchestrator/Spaced.antt =====
-- orchestrator.py, `_run_event_loop`: how often the bot decides.
use mathlib.Core.List.{append-nil, append_assoc}
use btc_bot.Prelude.{
  ◌≡◌, refl, sym, ap, ◌∙◌, arith, ℕ, ◌/◌, ◌≤◌, ◌<◌, true, some, List, [], ◌∷◌, ◌++◌, ◌⊎◌, inl, inr,
  length, All, All-map, Bool-cases, leb_iff,
}
use btc_bot.Prelude.Double.{Double}
use btc_bot.Core.Models.{Time, minutes}
use btc_bot.Orchestrator.World.{Settings, World, DecisionOutcome}
use btc_bot.Orchestrator.Engine.{KeepsThrough}
use btc_bot.Orchestrator.Ends.{run_decision_cycle_ends}
use btc_bot.Orchestrator.Schedule.{
  Schedule, is_15m_boundary, is_due, advance_decision_deadline, handle_daily_rollover,
}
use btc_bot.Orchestrator.Deadline.{is_15m_boundary_iff, deadline_next_boundary}
use btc_bot.Orchestrator.Loop.{
  LoopConfig, Turn, inputs_of, check_health, check_positions, check_decision, with_kill_switch,
  turn, run_event_loop,
}
use btc_bot.Orchestrator.Quiet.{
  IsQuiet, quiet_trans, rollover-IsQuiet, check_health-IsQuiet, check_positions-IsQuiet,
  kill_switch-IsQuiet,
}

-- The quarter of an hour that a time is in
abbrev pub quarter : Time → ℕ
quarter t = t / minutes 15

-- No two outcomes are of one quarter of an hour, and they are in the order of their times.
abbrev pub IsSpaced : List DecisionOutcome → Type 0
IsSpaced [] = Unit
IsSpaced (o ∷ os) =
    All (λ o'. quarter o.cycle_timestamp < quarter o'.cycle_timestamp) os × IsSpaced os

-- What is recorded in at most `n` turns from the deadline `at` on
pub record IsPaced {W : Type 0} (at : Time) (n : ℕ) (w w' : World W) : Type 0 where
  pub outcomes : List DecisionOutcome
  pub recorded : w'.decision_outcomes ≡ w.decision_outcomes ++ outcomes
  pub due : All (λ o. at ≤ o.cycle_timestamp) outcomes
  pub spaced : IsSpaced outcomes
  pub few : length outcomes ≤ n

module _ {W : Type 0} where
  -- A step decides once if the deadline is due, and then sets a later one, or leaves both alone.
  abbrev IsDecided : Time → Time → Schedule × World W → Schedule × World W → Type 0
  IsDecided now at r r' =
      (o : DecisionOutcome) × (next : Time) × (r'.1.decision_outcomes
        ≡ r.1.decision_outcomes ++ (o ∷ []))
      × (o.cycle_timestamp ≡ now)
      × (at ≤ now)
      × (r'.0.next_decision_at ≡ some next)
      × (is_15m_boundary next ≡ true)
      × (now < next)

  abbrev IsWaiting : Time → Schedule × World W → Schedule × World W → Type 0
  IsWaiting at r r' =
      (r'.1.decision_outcomes ≡ r.1.decision_outcomes) × (r'.0.next_decision_at ≡ some at)

  abbrev IsTurned : Time → Time → Schedule × World W → Schedule × World W → Type 0
  IsTurned now at r r' = IsDecided now at r r' ⊎ IsWaiting at r r'

  -- Quiet steps before and after do not matter.
  between :
      (now at : Time) (r1 r2 r3 r4 : Schedule × World W)
      → IsQuiet r1 r2
      → IsTurned now at r2 r3
      → IsQuiet r3 r4
      → IsTurned now at r1 r4
  between now at r1 r2 r3 r4 h (inl (o, next, told, same, le, later, whole, after)) k = inl (
    o,
    next,
    k.same_outcomes ∙ told ∙ ap (λ os. os ++ (o ∷ [])) h.same_outcomes,
    same,
    le,
    k.same_deadline ∙ later,
    whole,
    after,
  )
  between now at r1 r2 r3 r4 h (inr (told, later)) k =
      inr (k.same_outcomes ∙ told ∙ h.same_outcomes, k.same_deadline ∙ later)

-- A time from a deadline on is in a later quarter than a time before the deadline.
later_quarter :
    (now next t : Time)
    → is_15m_boundary next ≡ true
    → now < next
    → next ≤ t
    → quarter now < quarter t
later_quarter now next t whole after le =
    let e = (is_15m_boundary_iff next).0 whole in omega (arith, e, after, le)

module _ {W : Type 0} ⦃d : Double W⦄ (s : Settings W) (c : LoopConfig W) where
  check_decision-IsTurned :
      (t : Turn W) (sch : Schedule) (w : World W) (at : Time)
      → KeepsThrough t.inputs.engine
      → sch.next_decision_at ≡ some at
      → is_15m_boundary at ≡ true
      → IsTurned t.now at (sch, w) (check_decision s c t (sch, w))
  unfolding check_decision
  check_decision-IsTurned t sch w at keeps h whole =
      let ended = run_decision_cycle_ends s (inputs_of s c t) keeps w in
      let (first, next_whole, after, far, near) = deadline_next_boundary 0 at t.now whole in
      elim (Bool-cases (is_due sch.next_decision_at t.now)) [
        | inr e ↦ rw (check_decision, e) (inr (refl, h))
        | inl e ↦
            rw (check_decision, e)
              (inl (
                ended.outcome,
                advance_decision_deadline at t.now,
                ended.recorded,
                ended.same_time,
                (leb_iff at t.now).0 (ap (λ o. is_due o t.now) (sym h) ∙ e),
                rw h refl,
                next_whole,
                after,
              ))
      ]

  turn-IsTurned :
      (t : Turn W) (r : Schedule × World W) (at : Time)
      → KeepsThrough t.inputs.engine
      → r.0.next_decision_at ≡ some at
      → is_15m_boundary at ≡ true
      → IsTurned t.now at r (turn s c t r)
  unfolding turn
  turn-IsTurned t (sch, w) at keeps h whole =
      let r1 = handle_daily_rollover s t.now (sch, w) in
      let r2 = check_health s c t r1 in
      let r3 = check_positions s c t r2 in
      let r4 = check_decision s c t r3 in
      let quiet =
        quiet_trans (sch, w) r2 r3
          (quiet_trans (sch, w) r1 r2 (rollover-IsQuiet s c t.now sch w)
            (check_health-IsQuiet s c t r1))
          (check_positions-IsQuiet s c t r2) in
      between t.now at (sch, w) r3 r4 (with_kill_switch s c t r4) quiet
        (check_decision-IsTurned t r3.0 r3.1 at keeps (quiet.same_deadline ∙ h) whole)
        (kill_switch-IsQuiet s c t r4)

  -- From a schedule whose decision is due at a quarter of an hour, and where the execution engines
  -- leave safe mode alone, any turns of the event loop record at most one decision outcome each,
  -- none before that deadline, and at most one in a quarter of an hour, in the order of their times.
  -- The readings of the clock may be any.
  pub run_event_loop-IsPaced :
      (ts : List (Turn W)) (r : Schedule × World W) (at : Time)
      → All (λ t. KeepsThrough t.inputs.engine) ts
      → r.0.next_decision_at ≡ some at
      → is_15m_boundary at ≡ true
      → IsPaced at (length ts) r.1 (run_event_loop s c ts r).1
  unfolding run_event_loop
  run_event_loop-IsPaced [] r at keeps h whole = record {
    outcomes = [];
    recorded = sym (append-nil r.1.decision_outcomes);
    due = tt;
    spaced = tt;
    few = omega arith;
  }
  run_event_loop-IsPaced (t ∷ ts) r at (keep, keeps) h whole =
      let r' = turn s c t r in
      elim (turn-IsTurned t r at keep h whole) [
        | inr (told, later) ↦
            let rest = run_event_loop-IsPaced ts r' at keeps later whole in
            record {
              outcomes = rest.outcomes;
              recorded = rest.recorded ∙ ap (λ os. os ++ rest.outcomes) told;
              due = rest.due;
              spaced = rest.spaced;
              few = omega (arith, rest.few);
            }
        | inl (o, next, told, same, le, later, next_whole, after) ↦
            let rest = run_event_loop-IsPaced ts r' next keeps later next_whole in
            let at_now : o.cycle_timestamp < next = omega (arith, same, after) in
            record {
              outcomes = o ∷ rest.outcomes;
              recorded =
                  rest.recorded
                  ∙ ap (λ os. os ++ rest.outcomes) told
                  ∙ append_assoc r.1.decision_outcomes (o ∷ []) rest.outcomes;
              due = (
                omega (arith, same, le),
                All-map _ _ rest.outcomes (λ o' k. omega (arith, k, le, after)) rest.due,
              );
              spaced = (
                All-map _ _ rest.outcomes
                    (λ o' k.
                      later_quarter o.cycle_timestamp next o'.cycle_timestamp next_whole at_now k)
                    rest.due,
                rest.spaced,
              );
              few = omega (arith, rest.few);
            }
      ]
