-- ===== src/Research/Nested/Walked.antt =====
-- research_lab/walkforward.py, `run_nested_walkforward`: what the loop over the windows keeps.
use mathlib.Core.Path.{subst}
use btc_bot.Prelude.{
  ◌≡◌, refl, sym, ap, arith, ℕ, ◌+◌, true, false, none, some, List, [], ◌∷◌, length, length-append,
  All, All-append, keep, ◌↔◌,
}
use btc_bot.Prelude.Double.{Double}
use btc_bot.Research.Trials.{TrialEvaluation}
use btc_bot.Research.Windows.{WalkForwardWindow}
use btc_bot.Research.Walk.{Criteria, has_none, segment_failures}
use btc_bot.Research.Walk.Passed.{MeetsLimits, segment_failures_iff}
use btc_bot.Research.Nested.{Lab, NestedWalkForwardWindowResult, NestedProgress, no_nested_progress}
use btc_bot.Research.Nested.Run.{
  champions, validation_of, counted_trials, skip_window, judge_champion, judge_first,
  nested_windows,
}
use btc_bot.Research.Nested.Wins.{IsFiled, passed_one}
use btc_bot.Research.Nested.Filed.{IsFiled-win, IsFiled-skip}

some_value : {A : Type 0} (v w : A) → some v ≡ some w → v ≡ w
some_value v w e = ap (λ o. elim o [ none ↦ v | some x ↦ x ]) e

module _ {W P : Type 0} ⦃d : Double W⦄ (c : Criteria W) where
  -- A window is passed if and only if its champion was evaluated and meets the limits.
  abbrev pub IsJudged : NestedWalkForwardWindowResult W P → Type 0
  IsJudged x =
      (x.validation_passed ≡ true)
      ↔ ((v : TrialEvaluation W) × (x.validation_evaluation ≡ some v) × MeetsLimits c v)

  -- After `n` windows
  pub record IsWalked (n : ℕ) (g : NestedProgress W P) : Type 0 where
    pub filed : IsFiled g.window_results g.candidate_bucket
    pub counted : g.windows_passed ≡ length (keep (λ x. x.validation_passed) g.window_results)
    pub judged : All IsJudged g.window_results
    pub many : length g.window_results ≡ n

  module _ (lab : Lab W P) where
    skip_window-IsWalked :
        (seed index n : ℕ) (w : WalkForwardWindow) (g : NestedProgress W P)
        → IsWalked n g
        → IsWalked (n + 1) (skip_window c lab seed index w g)
    unfolding skip_window
    skip_window-IsWalked seed index n w g h = record {
      filed = IsFiled-skip g.window_results _ g.candidate_bucket refl h.filed;
      counted = omega (arith, h.counted, passed_one _ g.window_results false refl);
      judged =
          All-append IsJudged g.window_results _ h.judged
            (((λ e. absurd (cc)), (λ (v, e, m). absurd (cc))), tt);
      many = omega (arith, h.many, length-append g.window_results _);
    }

    judge_champion-IsWalked :
        (seed index n : ℕ) (w : WalkForwardWindow) (champion : TrialEvaluation W)
        (g : NestedProgress W P)
        → IsWalked n g
        → IsWalked (n + 1) (judge_champion c lab seed index w champion g)
    unfolding judge_champion
    judge_champion-IsWalked seed index n w champion g h =
        let validation = validation_of c lab index w champion in
        let (to, back) = segment_failures_iff c validation in
        record {
          filed = IsFiled-win g.window_results _ _ _ _ g.candidate_bucket refl (refl, refl) h.filed;
          counted = omega (
            arith,
            h.counted,
            passed_one _ g.window_results (has_none (segment_failures c validation)) refl,
          );
          judged = All-append IsJudged g.window_results _ h.judged (
            (
              (λ e. (validation, refl, to e)),
              (λ (v, e, m). back (subst (MeetsLimits c) (sym (some_value validation v e)) m)),
            ),
            tt,
          );
          many = omega (arith, h.many, length-append g.window_results _);
        }

    judge_first-IsWalked :
        (seed index n : ℕ) (w : WalkForwardWindow) (best : List (TrialEvaluation W))
        (g : NestedProgress W P)
        → IsWalked n g
        → IsWalked (n + 1) (judge_first c lab seed index w best g)
    judge_first-IsWalked seed index n w [] g h = skip_window-IsWalked seed index n w g h
    judge_first-IsWalked seed index n w (champion ∷ _) g h =
        judge_champion-IsWalked seed index n w champion g h

    nested_windows-IsWalked :
        (seed index n : ℕ) (ws : List WalkForwardWindow) (g : NestedProgress W P)
        → IsWalked n g
        → IsWalked (n + length ws) (nested_windows c lab seed index ws g)
    unfolding nested_windows
    nested_windows-IsWalked seed index n [] g h = subst (λ k. IsWalked k g) (omega arith) h
    nested_windows-IsWalked seed index n (w ∷ ws) g h =
        let counted = counted_trials c lab seed index w g in
        let h' : IsWalked n counted = record {
          filed = h.filed;
          counted = h.counted;
          judged = h.judged;
          many = h.many;
        } in
        subst
          (λ k. IsWalked k (
            nested_windows c lab seed (index + 1) ws
              (judge_first c lab seed index w (champions c lab seed index w) counted)))
          (omega arith)
          (nested_windows-IsWalked seed (index + 1) (n + 1) ws _
            (judge_first-IsWalked seed index n w (champions c lab seed index w) counted h'))

    pub all-IsWalked :
        (seed : ℕ) (ws : List WalkForwardWindow)
        → IsWalked (length ws) (nested_windows c lab seed 0 ws no_nested_progress)
    all-IsWalked seed ws =
        subst (λ k. IsWalked k (nested_windows c lab seed 0 ws no_nested_progress)) (omega arith)
          (nested_windows-IsWalked seed 0 0 ws no_nested_progress (record {
            filed = record { grouped = tt; complete = tt; apart = tt };
            counted = refl;
            judged = tt;
            many = refl;
          }))
