-- ===== src/Research/Walk.antt =====
-- research_lab/walkforward.py, `run_walkforward`: the judgement of a candidate over the windows. The
-- evaluation of a segment, a replay of the snapshot database, is the argument `evaluate`; a text of
-- the report is a constructor, with the values it shows.
pub mod Passed
use btc_bot.Prelude.{
  ℕ, zero, suc, ◌+◌, ◌/◌, String, Bool, true, false, not, ◌&&◌, ◌||◌, Option, none, some, List, [],
  ◌∷◌, ◌++◌, map, any, foldl, length, ltb, leb, ◌==◌, if◌then◌else◌,
}
use btc_bot.Prelude.Double.{Double, nought}
use btc_bot.Core.Models.{Time}
use btc_bot.Research.Trials.{TrialEvaluation, ObjectiveMetrics}
use btc_bot.Research.Windows.{WalkForwardWindow}

-- The entries of the protocol that the judgement reads
pub record Criteria (W : Type 0) : Type 0 where
  pub min_expectancy_r : W
  pub min_profit_factor : W
  pub max_drawdown_pct : W
  pub min_sharpe_ratio : W
  pub fragile_threshold : W
  pub require_all : Bool
  pub require_median : Bool

pub data Failure (W : Type 0) : Type 0 where
  rejected : String → Failure W
  expectancy_r : W → W → Failure W
  profit_factor : W → W → Failure W
  max_drawdown_pct : W → W → Failure W
  sharpe_ratio : W → W → Failure W

pub data Reason (W : Type 0) : Type 0 where
  train_failed : ℕ → Failure W → Reason W
  validation_failed : ℕ → Failure W → Reason W
  no_windows_available : Reason W
  fragility_threshold_exceeded : W → W → Reason W
  median_windows_not_met : ℕ → ℕ → Reason W
  no_window_passed : Reason W
  no_train_candidate : ℕ → Reason W
  no_nested_candidate_available : Reason W

pub record WalkForwardSegmentResult (W : Type 0) : Type 0 where
  pub metrics : ObjectiveMetrics W
  pub failures : List (Failure W)

pub record WalkForwardWindowResult (W : Type 0) : Type 0 where
  pub window_index : ℕ
  pub window : WalkForwardWindow
  pub train : WalkForwardSegmentResult W
  pub validation : WalkForwardSegmentResult W
  pub passed : Bool
  pub degradation_pct : W

pub record PromotionSafetyFlags : Type 0 where
  pub pnl_sanity_review_required : Bool
  pub pf_hard_review_required : Bool
  pub oos_outperformance_review_required : Bool
  pub low_oos_trade_count_review_required : Bool

pub record WalkForwardReport (W : Type 0) : Type 0 where
  pub passed : Bool
  pub windows_total : ℕ
  pub windows_passed : ℕ
  pub is_degradation_pct : W
  pub fragile : Bool
  pub reasons : List (Reason W)
  pub window_results : List (WalkForwardWindowResult W)
  pub safety_flags : PromotionSafetyFlags

-- What the loop over the windows keeps
pub record Progress (W : Type 0) : Type 0 where
  pub windows_passed : ℕ
  pub degradations : List W
  pub reasons : List (Reason W)
  pub window_results : List (WalkForwardWindowResult W)

abbrev pub has_none : {A : Type 0} → List A → Bool
has_none [] = true
has_none (_ ∷ _) = false

-- `if test: xs.append(x)`
abbrev pub added_if : {A : Type 0} → Bool → A → List A → List A
added_if test x xs = if test then xs ++ (x ∷ []) else xs

abbrev rejection : {W : Type 0} → Option String → List (Failure W)
rejection none = []
rejection (some reason) = Failure.rejected reason ∷ []

abbrev pub is_positive : ℕ → Bool
is_positive n = ltb 0 n

abbrev pub no_progress : {W : Type 0} → Progress W
no_progress = record { windows_passed = 0; degradations = []; reasons = []; window_results = [] }

module _ {W : Type 0} ⦃d : Double W⦄ where
  open d use {add, sub, mul, div, abs, neg, lt, lit, of_nat}

  -- The literal 1e-12 is `lit 1 12`.
  unfoldable pub degradation_pct : W → W → W
  degradation_pct in_sample out_of_sample =
      if lt (abs in_sample) (lit 1 12)
      then nought
      else mul (div (sub in_sample out_of_sample) (abs in_sample)) (of_nat 100)

  unfoldable pub segment_failures : Criteria W → TrialEvaluation W → List (Failure W)
  segment_failures c evaluation =
      let m = evaluation.metrics in
      added_if (lt m.sharpe_ratio c.min_sharpe_ratio)
        (Failure.sharpe_ratio m.sharpe_ratio c.min_sharpe_ratio)
        (added_if (lt c.max_drawdown_pct m.max_drawdown_pct)
          (Failure.max_drawdown_pct m.max_drawdown_pct c.max_drawdown_pct)
          (added_if (lt m.profit_factor c.min_profit_factor)
            (Failure.profit_factor m.profit_factor c.min_profit_factor)
            (added_if (lt m.expectancy_r c.min_expectancy_r)
              (Failure.expectancy_r m.expectancy_r c.min_expectancy_r)
              (rejection evaluation.rejected_reason))))

  unfoldable pub segment_metrics : List (WalkForwardWindowResult W) → List (ObjectiveMetrics W)
  segment_metrics [] = []
  segment_metrics (r ∷ rs) = r.train.metrics ∷ r.validation.metrics ∷ segment_metrics rs

  -- With the thresholds that are the defaults of the parameters
  unfoldable pub promotion_safety_flags :
      List (WalkForwardWindowResult W) → W → PromotionSafetyFlags
  promotion_safety_flags window_results avg_degradation = record {
    pnl_sanity_review_required =
        any (λ m. lt (of_nat 100000) (abs m.pnl_abs)) (segment_metrics window_results);
    pf_hard_review_required =
        any (λ m. lt (of_nat 5) m.profit_factor) (segment_metrics window_results);
    oos_outperformance_review_required =
        lt (of_nat 30) (abs avg_degradation) || lt avg_degradation (neg (of_nat 25));
    low_oos_trade_count_review_required =
        any (λ r. ltb r.validation.metrics.trades_count 30) window_results;
  }

  unfoldable pub mean_degradation : List W → W
  mean_degradation [] = nought
  mean_degradation (x ∷ xs) = div (foldl add nought (x ∷ xs)) (of_nat (length (x ∷ xs)))

  module _ (c : Criteria W) (evaluate : Time → Time → TrialEvaluation W) where
    -- The body of the loop
    unfoldable pub judge_window : ℕ → WalkForwardWindow → Progress W → Progress W
    judge_window index window g =
        let train = evaluate window.train_start window.train_end in
        let validation = evaluate window.validation_start window.validation_end in
        let train_failures = segment_failures c train in
        let val_failures = segment_failures c validation in
        let degradation =
          degradation_pct train.metrics.expectancy_r validation.metrics.expectancy_r in
        let passed = has_none train_failures && has_none val_failures in
        let result : WalkForwardWindowResult W = record {
          window_index = index;
          window = window;
          train = record { metrics = train.metrics; failures = train_failures };
          validation = record { metrics = validation.metrics; failures = val_failures };
          passed = passed;
          degradation_pct = degradation;
        } in
        if passed
        then record {
          windows_passed = g.windows_passed + 1;
          degradations = g.degradations ++ (degradation ∷ []);
          reasons = g.reasons;
          window_results = g.window_results ++ (result ∷ []);
        }
        else record {
          windows_passed = g.windows_passed;
          degradations = g.degradations;
          reasons =
              (g.reasons ++ map (Reason.train_failed index) train_failures)
              ++ map (Reason.validation_failed index) val_failures;
          window_results = g.window_results ++ (result ∷ []);
        }

    unfoldable pub judge_windows : ℕ → List WalkForwardWindow → Progress W → Progress W
    judge_windows index [] g = g
    judge_windows index (w ∷ ws) g = judge_windows (index + 1) ws (judge_window index w g)

    -- After the loop, for this number of windows: `math.ceil(n / 2)` is `(n + 1) / 2`.
    unfoldable pub report_of : ℕ → Progress W → WalkForwardReport W
    report_of total g =
        let avg_degradation = mean_degradation g.degradations in
        let fragile = lt c.fragile_threshold avg_degradation in
        let median_required = (total + 1) / 2 in
        let few = ltb g.windows_passed median_required in
        let available = added_if (total == 0) Reason.no_windows_available g.reasons in
        let stable =
          added_if fragile (Reason.fragility_threshold_exceeded avg_degradation c.fragile_threshold)
            available in
        let median =
          added_if (not c.require_all && c.require_median && is_positive total && few)
            (Reason.median_windows_not_met g.windows_passed total) stable in
        record {
          passed =
              is_positive total
              && (if c.require_all
                  then g.windows_passed == total
                  else if c.require_median
                  then leb median_required g.windows_passed
                  else is_positive g.windows_passed)
              && not fragile;
          windows_total = total;
          windows_passed = g.windows_passed;
          is_degradation_pct = avg_degradation;
          fragile = fragile;
          reasons =
              added_if (is_positive total && g.windows_passed == 0) Reason.no_window_passed median;
          window_results = g.window_results;
          safety_flags = promotion_safety_flags g.window_results avg_degradation;
        }

    unfoldable pub run_walkforward : List WalkForwardWindow → WalkForwardReport W
    run_walkforward windows = report_of (length windows) (judge_windows 0 windows no_progress)
