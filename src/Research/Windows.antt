-- ===== src/Research/Windows.antt =====
-- research_lab/walkforward.py: the windows of a walk-forward run. A time is what
-- `_parse_iso_datetime` reads from its text, and the numbers of days are natural.
pub mod Cover
use btc_bot.Prelude.{
  ℕ, zero, suc, ◌+◌, ◌-◌, ◌*◌, Option, none, some, List, [], ◌∷◌, ltb, if◌then◌else◌,
}
use btc_bot.Core.Models.{Time, hours}

-- The text `window_mode` of the protocol, stripped and in small letters
pub data WindowMode : Type 0 where
  anchored_expanding : WindowMode
  rolling : WindowMode
  other : WindowMode

-- The entries of the protocol that the windows are made of
pub record Protocol : Type 0 where
  pub train_days : ℕ
  pub validation_days : ℕ
  pub step_days : ℕ
  pub window_mode : WindowMode

pub record WalkForwardWindow : Type 0 where
  pub train_start : Time
  pub train_end : Time
  pub validation_start : Time
  pub validation_end : Time

-- What the loop comes to: its list, the ValueError for the mode, or the end of the fuel
pub data Built : Type 0 where
  built : List WalkForwardWindow → Built
  unsupported : Built
  running : Built

-- `timedelta(days=n)`
abbrev pub days : ℕ → ℕ
days n = hours (24 * n)

unfoldable pub train_start_of : WindowMode → Time → Time → Option Time
train_start_of WindowMode.anchored_expanding start cursor = some start
train_start_of WindowMode.rolling start cursor = some cursor
train_start_of WindowMode.other start cursor = none

unfoldable pub window_of : Protocol → Time → Time → WalkForwardWindow
window_of p train_start cursor =
    let train_end = cursor + days p.train_days in
    record {
      train_start = train_start;
      train_end = train_end;
      validation_start = train_end;
      validation_end = train_end + days p.validation_days;
    }

unfoldable pub append_first : WalkForwardWindow → Built → Built
append_first w (Built.built ws) = Built.built (w ∷ ws)
append_first w Built.unsupported = Built.unsupported
append_first w Built.running = Built.running

-- The loop `while True` from the cursor; a window is put before those of the later rounds.
unfoldable pub window_loop : ℕ → Protocol → Time → Time → Time → Built
window_loop zero p start end cursor = Built.running
window_loop (suc fuel) p start end cursor =
    let rest = window_loop fuel p start end (cursor + days p.step_days) in
    elim (train_start_of p.window_mode start cursor) [
      | none ↦ Built.unsupported
      | some train_start ↦
          let w = window_of p train_start cursor in
          if ltb end w.validation_end then Built.built [] else append_first w rest
    ]

-- One round for every unit of time from the start to the end, and one to stop
unfoldable pub build_windows : Protocol → Time → Time → Built
build_windows p start end = window_loop (suc (suc (end - start))) p start end start
