-- ===== src/Tests/Nested.antt =====
-- Examples for the nested walk-forward run.
use btc_bot.Prelude.{
  ◌≡◌, ◌↔◌, refl, ◌<◌, true, false, String, some, none, List, [], ◌∷◌, map, length, All, keep, ◌==◌,
  if◌then◌else◌,
}
use btc_bot.Prelude.Fixed.{ℤ, fixed_double}
use btc_bot.Research.Windows.{WalkForwardWindow}
use btc_bot.Research.Nested.{Lab, aggregate_objective_metrics}
use btc_bot.Research.Nested.Run.{run_nested_walkforward}
use btc_bot.Research.Nested.Walked.{IsJudged}
use btc_bot.Research.Nested.Best.{IsGroupOf, HasSummary, IsBest, run_nested_walkforward_selects}
use btc_bot.Research.Nested.Passes.{IsWon, run_nested_walkforward_iff}
use btc_bot.Tests.Samples.{whole}
use btc_bot.Tests.Pareto.{trial}
use btc_bot.Tests.Windows.{criteria, from_to}

-- The third study has no trial; the parameters of a trial are its name.
abbrev lab : Lab ℤ String
lab = record {
  run_study = λ index seed window.
      if index == 2
      then []
      else (trial "a" 2 2 5 ∷ trial (if index == 0 then "b" else "c") 3 3 4 ∷ []);
  trial_params = λ t. t.trial_id;
  nested_candidate_id = λ p. p;
  evaluate_segment = λ index params start end. trial "v" 2 2 5;
  text_before = λ a b. false;
}

abbrev windows : List WalkForwardWindow
windows = from_to 0 2 ∷ from_to 1 3 ∷ from_to 2 4 ∷ []

run_nested_walkforward_selects_example :
    let r = run_nested_walkforward criteria lab 42 windows in
    (length r.window_results ≡ 3)
    × All (IsJudged criteria) r.window_results
    × (r.windows_passed ≡ length (keep (λ x. x.validation_passed) r.window_results))
    × All (IsGroupOf r.window_results) r.candidate_summaries
    × All (λ x. HasSummary r.candidate_summaries x.champion_candidate_id) r.window_results
    × IsBest r.candidate_summaries r.selected_evaluation
run_nested_walkforward_selects_example = run_nested_walkforward_selects criteria lab 42 windows

run_nested_walkforward_iff_example :
    let r = run_nested_walkforward criteria lab 42 windows in
    (r.passed ≡ true) ↔ (
      (0 < 3)
      × All (IsWon criteria lab) r.window_results
      × (fixed_double.lt (whole 30) r.is_degradation_pct ≡ false))
run_nested_walkforward_iff_example = run_nested_walkforward_iff criteria lab 42 windows refl

nested_run :
    let r = run_nested_walkforward criteria lab 42 windows in
    (map (λ x. x.champion_candidate_id) r.window_results ≡ some "b" ∷ some "c" ∷ none ∷ [])
    × (r.windows_passed ≡ 2)
    × (map (λ s. s.contributing_window_indices) r.candidate_summaries ≡ (0 ∷ []) ∷ (1 ∷ []) ∷ [])
unfolding run_nested_walkforward aggregate_objective_metrics
nested_run = (refl, refl, refl)
