-- ===== src/Tests/Windows.antt =====
-- Examples for the windows and the walk over them.
use btc_bot.Prelude.{◌≡◌, refl, ℕ, ◌+◌, arith, List, [], ◌∷◌, ◌⊎◌, get_elem?}
use btc_bot.Prelude.{true, false, ◌<◌, ◌↔◌, length, All, ltb, if◌then◌else◌}
use btc_bot.Prelude.Fixed.{ℤ, fixed_double}
use btc_bot.Core.Models.{Time}
use btc_bot.Research.Trials.{TrialEvaluation}
use btc_bot.Research.Walk.{
  Criteria, run_walkforward, judge_windows, judge_window, segment_failures, report_of,
  mean_degradation, degradation_pct,
}
use btc_bot.Research.Walk.Passed.{IsPassed, run_walkforward_iff}
use btc_bot.Tests.Samples.{whole}
use btc_bot.Tests.Pareto.{trial}
use btc_bot.Research.Windows.{
  WindowMode, Protocol, WalkForwardWindow, Built, days, build_windows, window_loop, train_start_of,
  window_of, append_first,
}
use btc_bot.Research.Windows.Cover.{fitting, build_windows_lem}

abbrev protocol : WindowMode → Protocol
protocol mode = record { train_days = 2; validation_days = 1; step_days = 1; window_mode = mode }

abbrev pub from_to : ℕ → ℕ → WalkForwardWindow
from_to first last = record {
  train_start = days first;
  train_end = days last;
  validation_start = days last;
  validation_end = days (last + 1);
}

-- Four days of data have two windows.
build_windows_example :
    build_windows (protocol WindowMode.rolling) 0 (days 4)
    ≡ Built.built (from_to 0 2 ∷ from_to 1 3 ∷ [])
unfolding build_windows window_loop train_start_of window_of append_first
build_windows_example = refl

build_windows_lem_example :
    let p = protocol WindowMode.anchored_expanding in
    let b = build_windows p 0 (days 4) in
    ((WindowMode.anchored_expanding ≡ WindowMode.other) × (b ≡ Built.unsupported))
    ⊎ ((ws : List WalkForwardWindow) × (b ≡ Built.built ws)
        × ((i : ℕ) → get_elem? ws i ≡ fitting p 0 (days 4) i))
build_windows_lem_example =
    build_windows_lem (protocol WindowMode.anchored_expanding) 0 (days 4) (omega arith)

abbrev pub criteria : Criteria ℤ
criteria = record {
  min_expectancy_r = whole 1;
  min_profit_factor = whole 1;
  max_drawdown_pct = whole 50;
  min_sharpe_ratio = whole 0;
  fragile_threshold = whole 30;
  require_all = true;
  require_median = false;
}

-- The trades of the first two days earn less.
abbrev evaluate : Time → Time → TrialEvaluation ℤ
evaluate from to = trial "t" (if ltb from (days 1) then 1 else 2) 2 5

abbrev windows : List WalkForwardWindow
windows = from_to 0 2 ∷ from_to 1 3 ∷ []

run_walkforward_iff_example :
    let r = run_walkforward criteria evaluate windows in
    let clean =
      (0 < length windows)
      × All (IsPassed criteria evaluate) windows
      × (fixed_double.lt (whole 30) r.is_degradation_pct ≡ false) in
    ((r.passed ≡ true) ↔ clean) × ((r.reasons ≡ []) ↔ clean)
run_walkforward_iff_example = run_walkforward_iff criteria evaluate windows refl

run_walkforward_runs : (run_walkforward criteria evaluate windows).passed ≡ true
unfolding run_walkforward judge_windows judge_window segment_failures report_of mean_degradation
    degradation_pct
run_walkforward_runs = refl
