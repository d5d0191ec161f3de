-- ===== src/Research/Nested.antt =====
-- research_lab/walkforward.py, `run_nested_walkforward`: in each window a study searches the
-- parameters, and the best trial of its frontier, the champion, is judged on the validation segment.
pub mod Run
pub mod Wins
pub mod Filed
pub mod Walked
pub mod Best
pub mod Passes
use text.Mathlib.Text.{◌==◌ as same_text}
use btc_bot.Prelude.{
  ℕ, ◌+◌, String, Bool, not, Option, none, List, [], ◌∷◌, ◌++◌, map, foldl, length, ltb, ◌==◌,
  if◌then◌else◌,
}
use btc_bot.Prelude.Double.{Double, nought, max}
use btc_bot.Core.Models.{Time}
use btc_bot.Research.Trials.{TrialEvaluation, ObjectiveMetrics, SignalFunnel}
use btc_bot.Research.Windows.{WalkForwardWindow}
use btc_bot.Research.Walk.{Failure, Reason}

-- What the run calls: `run_optuna_study` for a window with its index and seed, the parameters of a
-- trial, `_nested_candidate_id` with the base settings, `_evaluate_window_segment` for the settings
-- that parameters make, and `<` of two texts.
pub record Lab (W P : Type 0) : Type 0 where
  pub run_study : ℕ → ℕ → WalkForwardWindow → List (TrialEvaluation W)
  pub trial_params : TrialEvaluation W → P
  pub nested_candidate_id : P → String
  pub evaluate_segment : ℕ → P → Time → Time → TrialEvaluation W
  pub text_before : String → String → Bool

pub data WindowReason (W : Type 0) : Type 0 where
  no_candidate : WindowReason W
  failed : Failure W → WindowReason W

pub record NestedWalkForwardWindowResult (W P : Type 0) : Type 0 where
  pub window_index : ℕ
  pub window : WalkForwardWindow
  pub seed : ℕ
  pub champion_trial_id : Option String
  pub champion_candidate_id : Option String
  pub champion_params : Option P
  pub train_evaluation : Option (TrialEvaluation W)
  pub validation_evaluation : Option (TrialEvaluation W)
  pub validation_passed : Bool
  pub reasons : List (WindowReason W)

-- What `candidate_bucket` holds for a candidate
pub record CandidateBucket (W P : Type 0) : Type 0 where
  pub params : P
  pub evaluations : List (TrialEvaluation W)
  pub window_indices : List ℕ
  pub windows_won : ℕ
  pub windows_passed : ℕ

pub record NestedWalkForwardCandidateSummary (W P : Type 0) : Type 0 where
  pub candidate_id : String
  pub params : P
  pub windows_won : ℕ
  pub windows_passed : ℕ
  pub evaluation : TrialEvaluation W
  pub contributing_window_indices : List ℕ

pub record NestedWalkForwardReport (W P : Type 0) : Type 0 where
  pub passed : Bool
  pub windows_total : ℕ
  pub windows_passed : ℕ
  pub is_degradation_pct : W
  pub fragile : Bool
  pub reasons : List (Reason W)
  pub train_trials_total : ℕ
  pub selected_evaluation : Option (TrialEvaluation W)
  pub candidate_summaries : List (NestedWalkForwardCandidateSummary W P)
  pub window_results : List (NestedWalkForwardWindowResult W P)

-- What the loop over the windows keeps; the buckets stand in the order of their first windows.
pub record NestedProgress (W P : Type 0) : Type 0 where
  pub windows_passed : ℕ
  pub train_trials_total : ℕ
  pub degradations : List W
  pub reasons : List (Reason W)
  pub window_results : List (NestedWalkForwardWindowResult W P)
  pub candidate_bucket : List (String × CandidateBucket W P)

-- A window that a candidate won
pub record Win (W : Type 0) : Type 0 where
  pub index : ℕ
  pub evaluation : TrialEvaluation W
  pub passed : Bool

abbrev pub count_if : Bool → ℕ
count_if passed = if passed then 1 else 0

module _ {W P : Type 0} where
  abbrev pub new_bucket : P → CandidateBucket W P
  new_bucket params = record {
    params = params;
    evaluations = [];
    window_indices = [];
    windows_won = 0;
    windows_passed = 0;
  }

  abbrev pub with_win : Win W → CandidateBucket W P → CandidateBucket W P
  with_win win b = record {
    params = b.params;
    evaluations = b.evaluations ++ (win.evaluation ∷ []);
    window_indices = b.window_indices ++ (win.index ∷ []);
    windows_won = b.windows_won + 1;
    windows_passed = b.windows_passed + count_if win.passed;
  }

  -- `setdefault` and the changes to the bucket that it gives
  unfoldable pub put_win :
      String → P → Win W → List (String × CandidateBucket W P) → List (String × CandidateBucket W P)
  put_win id params win [] = (id, with_win win (new_bucket params)) ∷ []
  put_win id params win ((key, b) ∷ bs) =
      let rest = put_win id params win bs in
      if same_text key id then (key, with_win win b) ∷ bs else (key, b) ∷ rest

  abbrev pub no_nested_progress : NestedProgress W P
  no_nested_progress = record {
    windows_passed = 0;
    train_trials_total = 0;
    degradations = [];
    reasons = [];
    window_results = [];
    candidate_bucket = [];
  }

-- `sum(...)` of counts
abbrev pub sum_of {ℓ} : {A : Type ℓ} → (A → ℕ) → List A → ℕ
sum_of f [] = 0
sum_of f (x ∷ xs) = f x + sum_of f xs

abbrev pub aggregate_signal_funnel : {W : Type 0} → List (TrialEvaluation W) → SignalFunnel
aggregate_signal_funnel evaluations = record {
  signals_generated = sum_of (λ e. e.funnel.signals_generated) evaluations;
  signals_regime_blocked = sum_of (λ e. e.funnel.signals_regime_blocked) evaluations;
  signals_governance_rejected = sum_of (λ e. e.funnel.signals_governance_rejected) evaluations;
  signals_risk_rejected = sum_of (λ e. e.funnel.signals_risk_rejected) evaluations;
  signals_executed = sum_of (λ e. e.funnel.signals_executed) evaluations;
}

module _ {W : Type 0} ⦃d : Double W⦄ where
  open d use {add, neg, div, lt, eq, of_nat}

  abbrev pub sum_floats : List W → W
  sum_floats = foldl add nought

  abbrev pub average_of : (TrialEvaluation W → W) → List (TrialEvaluation W) → W
  average_of f evaluations = div (sum_floats (map f evaluations)) (of_nat (length evaluations))

  unfoldable pub aggregate_objective_metrics : List (TrialEvaluation W) → ObjectiveMetrics W
  aggregate_objective_metrics [] = record {
    expectancy_r = nought;
    profit_factor = nought;
    max_drawdown_pct = nought;
    trades_count = 0;
    sharpe_ratio = nought;
    pnl_abs = nought;
    win_rate = nought;
  }
  aggregate_objective_metrics (e ∷ es) = record {
    expectancy_r = average_of (λ x. x.metrics.expectancy_r) (e ∷ es);
    profit_factor = average_of (λ x. x.metrics.profit_factor) (e ∷ es);
    max_drawdown_pct =
        foldl max e.metrics.max_drawdown_pct (map (λ x. x.metrics.max_drawdown_pct) es);
    trades_count = sum_of (λ x. x.metrics.trades_count) (e ∷ es);
    sharpe_ratio = average_of (λ x. x.metrics.sharpe_ratio) (e ∷ es);
    pnl_abs = sum_floats (map (λ x. x.metrics.pnl_abs) (e ∷ es));
    win_rate = average_of (λ x. x.metrics.win_rate) (e ∷ es);
  }

  abbrev pub summary_of :
      {P : Type 0} → String × CandidateBucket W P → NestedWalkForwardCandidateSummary W P
  summary_of (id, b) = record {
    candidate_id = id;
    params = b.params;
    windows_won = b.windows_won;
    windows_passed = b.windows_passed;
    evaluation = record {
      trial_id = id;
      metrics = aggregate_objective_metrics b.evaluations;
      funnel = aggregate_signal_funnel b.evaluations;
      rejected_reason = none;
    };
    contributing_window_indices = b.window_indices;
  }
