-- ===== src/Orchestrator/Schedule.antt =====
-- orchestrator.py: the schedule of the event loop.
use btc_bot.Prelude.{
  ℕ, zero, suc, ◌+◌, ◌-◌, ◌*◌, ◌/◌, ◌%◌, Bool, true, false, ◌&&◌, Option, none, some, List, [], ◌∷◌,
  ◌++◌, foldl, ltb, leb, if◌then◌else◌, ◌==◌,
}
use btc_bot.Prelude.Double.{Double, max, min}
use btc_bot.Core.Models.{Time, second, minutes, hours}
use btc_bot.Storage.Queries.{date_of}
use btc_bot.Storage.Runtime.{sync_daily_metrics}
use btc_bot.Orchestrator.World.{Settings, World}

-- `datetime.minute`, `second` and `microsecond`
abbrev minute_of : Time → ℕ
minute_of t = t / minutes 1 % 60

abbrev second_of : Time → ℕ
second_of t = t / second % 60

abbrev microsecond_of : Time → ℕ
microsecond_of t = t % second

unfoldable pub is_15m_boundary : Time → Bool
is_15m_boundary now = (minute_of now % 15 == 0) && (second_of now == 0) && (microsecond_of now == 0)

unfoldable pub next_15m_boundary : Time → Time
next_15m_boundary now =
    let base = now - now % minutes 1 in
    let next_minute = (minute_of base / 15 + 1) * 15 in
    let hour = base - minutes (minute_of base) in
    if leb 60 next_minute then hour + hours 1 else hour + minutes next_minute

-- The loop, on fuel, and with the fuel that it needs.
unfoldable pub advance : ℕ → Time → Time → Time
advance zero result now = result
advance (suc fuel) result now = elim (leb result now) [
  | true ↦ advance fuel (result + minutes 15) now
  | false ↦ result
]

unfoldable pub advance_decision_deadline : Time → Time → Time
unfolding advance
advance_decision_deadline current now = advance ((now - current) / minutes 15 + 1) current now

pub record Schedule : Type 0 where
  pub current_utc_day : Option ℕ
  pub next_decision_at : Option Time
  pub next_monitor_at : Option Time
  pub next_health_at : Option Time

unfoldable pub initialize_runtime_schedule : Time → Schedule
unfolding is_15m_boundary next_15m_boundary
initialize_runtime_schedule now = record {
  current_utc_day = some (date_of now);
  next_decision_at = some (if is_15m_boundary now then now else next_15m_boundary now);
  next_monitor_at = some now;
  next_health_at = some now;
}

-- `target and now >= target`
abbrev pub is_due : Option Time → Time → Bool
is_due none now = false
is_due (some target) now = leb target now

module _ {W : Type 0} ⦃d : Double W⦄ where
  open d use {div, of_nat, lit}

  -- `loop_idle_sleep_seconds` is the first argument.
  abbrev delta : Time → Option Time → List W
  delta now none = []
  delta now (some target) =
      if ltb now target then div (of_nat (target - now)) (of_nat second) ∷ [] else []

  unfoldable pub compute_sleep_seconds : W → Schedule → Time → W
  compute_sleep_seconds loop_idle_sleep_seconds sch now =
      let idle_sleep = max loop_idle_sleep_seconds (lit 5 2) in
      let deltas =
        delta now sch.next_monitor_at
        ++ (delta now sch.next_health_at ++ delta now sch.next_decision_at) in
      elim deltas [ [] ↦ idle_sleep | x ∷ xs ↦ max (min (foldl min x xs) idle_sleep) (lit 5 2) ]

  -- the summary of a day that is over, and the day that is current from then on
  unfoldable pub handle_daily_rollover : Settings W → Time → Schedule × World W → Schedule × World W
  unfolding sync_daily_metrics
  handle_daily_rollover s now (sch, w) =
      let sch' = record sch { current_utc_day = some (date_of now) } in
      elim sch.current_utc_day [
        | none ↦ (sch', w)
        | some day ↦
            if date_of now == day
            then (sch, w)
            else (sch', record w { tables = sync_daily_metrics s.store day w.tables })
      ]
