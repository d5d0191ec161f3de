-- ===== src/Research/Nested/Run.antt =====
-- research_lab/walkforward.py, `run_nested_walkforward`: the loop over the windows, and the report.
use btc_bot.Prelude.{
  ℕ, ◌+◌, ◌/◌, Bool, false, not, ◌&&◌, Option, none, some, List, [], ◌∷◌, ◌++◌, map, length, ltb,
  leb, ◌==◌, if◌then◌else◌,
}
use btc_bot.Prelude.Double.{Double}
use btc_bot.Prelude.Sorting.{sort}
use btc_bot.Research.Trials.{TrialEvaluation}
use btc_bot.Research.Pareto.{compute_pareto_frontier, rank_pareto_candidates}
use btc_bot.Research.Windows.{WalkForwardWindow}
use btc_bot.Research.Walk.{
  Criteria, Reason, has_none, added_if, is_positive, segment_failures, degradation_pct,
  mean_degradation,
}
use btc_bot.Research.Nested.{
  Lab, WindowReason, NestedWalkForwardCandidateSummary, NestedWalkForwardReport, NestedProgress,
  count_if, put_win, no_nested_progress, summary_of,
}

-- `<` of two keys: the first pair that differs decides. A count is negated in the key.
abbrev more_first : ℕ → ℕ → Bool → Bool
more_first a b rest = if not (a == b) then ltb b a else rest

-- `xs[0]`, if there is one
abbrev pub selected :
    {W P : Type 0} → List (NestedWalkForwardCandidateSummary W P) → Option (TrialEvaluation W)
selected [] = none
selected (s ∷ ss) = some s.evaluation

module _ {W P : Type 0} ⦃d : Double W⦄ (c : Criteria W) (lab : Lab W P) where
  open d use {neg, lt, eq}

  abbrev less_first : W → W → Bool → Bool
  less_first a b rest = if not (eq a b) then lt a b else rest

  -- The order of `_nested_candidate_sort_key`
  unfoldable pub summary_before :
      NestedWalkForwardCandidateSummary W P → NestedWalkForwardCandidateSummary W P → Bool
  summary_before x y =
      let l = x.evaluation.metrics in
      let r = y.evaluation.metrics in
      more_first x.windows_passed y.windows_passed (
        more_first x.windows_won y.windows_won (
          less_first (neg l.expectancy_r) (neg r.expectancy_r) (
            less_first (neg l.profit_factor) (neg r.profit_factor) (
              less_first l.max_drawdown_pct r.max_drawdown_pct (
                more_first l.trades_count r.trades_count
                  (lab.text_before x.evaluation.trial_id y.evaluation.trial_id))))))

  -- The best trial of the study of a window, if its frontier has one
  unfoldable pub champions : ℕ → ℕ → WalkForwardWindow → List (TrialEvaluation W)
  unfolding compute_pareto_frontier rank_pareto_candidates
  champions seed index window =
      rank_pareto_candidates lab.text_before
        (compute_pareto_frontier (lab.run_study index (seed + index) window))

  -- `dataclasses.replace(validation_raw, trial_id=...)`
  abbrev pub validation_of : ℕ → WalkForwardWindow → TrialEvaluation W → TrialEvaluation W
  validation_of index window champion =
      let params = lab.trial_params champion in
      record (lab.evaluate_segment index params window.validation_start window.validation_end) {
        trial_id = lab.nested_candidate_id params;
      }

  abbrev pub counted_trials : ℕ → ℕ → WalkForwardWindow → NestedProgress W P → NestedProgress W P
  counted_trials seed index window g = record g {
    train_trials_total = g.train_trials_total + length (lab.run_study index (seed + index) window);
  }

  -- The rest of a turn without a champion, and with one
  unfoldable pub skip_window : ℕ → ℕ → WalkForwardWindow → NestedProgress W P → NestedProgress W P
  skip_window seed index window g = record g {
    reasons = g.reasons ++ (Reason.no_train_candidate index ∷ []);
    window_results =
        g.window_results
        ++ (record {
          window_index = index;
          window = window;
          seed = seed + index;
          champion_trial_id = none;
          champion_candidate_id = none;
          champion_params = none;
          train_evaluation = none;
          validation_evaluation = none;
          validation_passed = false;
          reasons = WindowReason.no_candidate ∷ [];
        }
            ∷ []);
  }

  unfoldable pub judge_champion :
      ℕ → ℕ → WalkForwardWindow → TrialEvaluation W → NestedProgress W P → NestedProgress W P
  unfolding segment_failures degradation_pct put_win
  judge_champion seed index window champion g =
      let params = lab.trial_params champion in
      let id = lab.nested_candidate_id params in
      let validation = validation_of index window champion in
      let failures = segment_failures c validation in
      let passed = has_none failures in
      record g {
        windows_passed = g.windows_passed + count_if passed;
        degradations =
            g.degradations
            ++ (degradation_pct champion.metrics.expectancy_r validation.metrics.expectancy_r ∷ []);
        reasons = g.reasons ++ map (Reason.validation_failed index) failures;
        window_results =
            g.window_results
            ++ (record {
              window_index = index;
              window = window;
              seed = seed + index;
              champion_trial_id = some champion.trial_id;
              champion_candidate_id = some id;
              champion_params = some params;
              train_evaluation = some champion;
              validation_evaluation = some validation;
              validation_passed = passed;
              reasons = map WindowReason.failed failures;
            }
                ∷ []);
        candidate_bucket =
            put_win id params (record { index = index; evaluation = validation; passed = passed })
              g.candidate_bucket;
      }

  abbrev pub judge_first :
      ℕ → ℕ → WalkForwardWindow → List (TrialEvaluation W) → NestedProgress W P → NestedProgress W P
  judge_first seed index window [] g = skip_window seed index window g
  judge_first seed index window (champion ∷ _) g = judge_champion seed index window champion g

  unfoldable pub nested_windows :
      ℕ → ℕ → List WalkForwardWindow → NestedProgress W P → NestedProgress W P
  unfolding skip_window judge_champion champions
  nested_windows seed index [] g = g
  nested_windows seed index (w ∷ ws) g =
      nested_windows seed (index + 1) ws
        (judge_first seed index w (champions seed index w) (counted_trials seed index w g))

  -- After the loop; `math.ceil(n / 2)` is `(n + 1) / 2`.
  unfoldable pub nested_report : ℕ → NestedProgress W P → NestedWalkForwardReport W P
  unfolding mean_degradation summary_before sort
  nested_report total g =
      let avg_degradation = mean_degradation g.degradations in
      let fragile = lt c.fragile_threshold avg_degradation in
      let median_required = (total + 1) / 2 in
      let few = ltb g.windows_passed median_required in
      let available = added_if (total == 0) Reason.no_windows_available g.reasons in
      let stable =
        added_if fragile (Reason.fragility_threshold_exceeded avg_degradation c.fragile_threshold)
          available in
      let median =
        added_if (not c.require_all && c.require_median && is_positive total && few)
          (Reason.median_windows_not_met g.windows_passed total) stable in
      let won =
        added_if (is_positive total && g.windows_passed == 0) Reason.no_window_passed median in
      let summaries = sort summary_before (map summary_of g.candidate_bucket) in
      record {
        passed =
            is_positive total
            && (if c.require_all
                then g.windows_passed == total
                else if c.require_median
                then leb median_required g.windows_passed
                else is_positive g.windows_passed)
            && not fragile;
        windows_total = total;
        windows_passed = g.windows_passed;
        is_degradation_pct = avg_degradation;
        fragile = fragile;
        reasons = added_if (has_none summaries) Reason.no_nested_candidate_available won;
        train_trials_total = g.train_trials_total;
        selected_evaluation = selected summaries;
        candidate_summaries = summaries;
        window_results = g.window_results;
      }

  unfoldable pub run_nested_walkforward : ℕ → List WalkForwardWindow → NestedWalkForwardReport W P
  unfolding nested_windows nested_report
  run_nested_walkforward seed windows =
      nested_report (length windows) (nested_windows seed 0 windows no_nested_progress)
