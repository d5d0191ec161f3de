-- ===== src/Orchestrator/Deadline.antt =====
-- orchestrator.py: the deadlines of the decisions.
use btc_bot.Prelude.{
  ◌≡◌, ◌↔◌, refl, ◌∙◌, arith, ℕ, zero, suc, ◌+◌, ◌-◌, ◌*◌, ◌/◌, ◌%◌, ◌≤◌, ◌<◌, true, some, leb, inl,
  inr, Bool-cases, le_or_lt,
}
use btc_bot.Core.Models.{Time, minutes}
use btc_bot.Orchestrator.Schedule.{
  is_15m_boundary, next_15m_boundary, advance, advance_decision_deadline,
  initialize_runtime_schedule,
}

pub is_15m_boundary_iff : (t : Time) → (is_15m_boundary t ≡ true) ↔ (t % minutes 15 ≡ 0)
unfolding is_15m_boundary
is_15m_boundary_iff t = ground arith

next_15m_boundary_lem :
    (t : Time)
    → let r = next_15m_boundary t in (r % minutes 15 ≡ 0) × (t < r) × (r ≤ t + minutes 15)
unfolding next_15m_boundary
next_15m_boundary_lem t = ground arith

advance_lem :
    (fuel : ℕ) (current now : Time)
    → now < current + fuel * minutes 15
    → let r = advance fuel current now in
      (now < r)
      × (r % minutes 15 ≡ current % minutes 15)
      × (current ≤ now → r ≤ now + minutes 15)
      × (now < current → r ≡ current)
unfolding advance
advance_lem zero current now h = (omega arith, refl, (λ k. omega arith), (λ k. refl))
advance_lem (suc fuel) current now h = elim (Bool-cases (leb current now)) [
  | inr e ↦ rw (advance, e) (ground arith, refl, (λ k. ground arith), (λ k. refl))
  | inl e ↦
      let le : current ≤ now = ground arith in
      let (after, same, far, near) = advance_lem fuel (current + minutes 15) now (omega arith) in
      rw (advance, e)
        (
          after,
          same ∙ omega arith,
          (λ k. elim (le_or_lt (current + minutes 15) now) [
            | inl j ↦ far j
            | inr j ↦ omega (arith, near j)
          ]),
          (λ k. absurd (omega (arith, k, le))),
        )
]

first_deadline :
    (start : Time)
    → (first : Time) × ((initialize_runtime_schedule start).next_decision_at ≡ some first)
      × (is_15m_boundary first ≡ true)
      × (start ≤ first)
      × (first < start + minutes 15)
unfolding initialize_runtime_schedule
first_deadline start = elim (Bool-cases (is_15m_boundary start)) [
  | inl e ↦ rw e (start, refl, e, omega arith, omega arith)
  | inr e ↦
      let (whole, after, near) = next_15m_boundary_lem start in
      rw e (
        next_15m_boundary start,
        refl,
        (is_15m_boundary_iff (next_15m_boundary start)).1 whole,
        omega (arith, after),
        ground (arith, is_15m_boundary_iff start),
      )
]

enough : (current now : Time) → now < current + ((now - current) / minutes 15 + 1) * minutes 15
enough current now = omega arith

-- The decision deadlines are quarters of an hour: the first is the first one that is not before the
-- start, and a deadline is advanced, in finitely many steps, to the first one after the present
-- time, or stays if it is later already.
pub deadline_next_boundary :
    (start current now : Time)
    → is_15m_boundary current ≡ true
    → let r = advance_decision_deadline current now in
      ((first : Time) × ((initialize_runtime_schedule start).next_decision_at ≡ some first)
        × (is_15m_boundary first ≡ true)
        × (start ≤ first)
        × (first < start + minutes 15))
      × (is_15m_boundary r ≡ true)
      × (now < r)
      × (current ≤ now → r ≤ now + minutes 15)
      × (now < current → r ≡ current)
unfolding advance_decision_deadline
deadline_next_boundary start current now h =
    let (after, same, far, near) = advance_lem _ current now (enough current now) in
    let whole = (is_15m_boundary_iff current).0 h in
    (first_deadline start, (is_15m_boundary_iff _).1 (same ∙ whole), after, far, near)
