-- ===== src/Research/Nested/Passes.antt =====
-- research_lab/walkforward.py, `run_nested_walkforward`: when the nested run passes.
use btc_bot.Prelude.{
  ◌≡◌, ◌↔◌, refl, arith, ℕ, ◌<◌, Bool, true, false, some, List, [], ◌∷◌, length, All, All-zip, keep,
  inl, inr, Bool-cases, length-keep-le,
}
use btc_bot.Prelude.Double.{Double}
use btc_bot.Research.Trials.{TrialEvaluation}
use btc_bot.Research.Windows.{WalkForwardWindow}
use btc_bot.Research.Walk.{Criteria, mean_degradation}
use btc_bot.Research.Walk.Passed.{MeetsLimits}
use btc_bot.Research.Nested.{Lab, NestedWalkForwardWindowResult, NestedProgress, no_nested_progress}
use btc_bot.Research.Nested.Run.{nested_windows, nested_report, run_nested_walkforward}
use btc_bot.Research.Nested.Walked.{all-IsWalked}

all_kept :
    {A : Type 0} (p : A → Bool) (xs : List A)
    → (length (keep p xs) ≡ length xs) ↔ All (λ x. p x ≡ true) xs
all_kept p [] = ((λ e. tt), (λ h. refl))
all_kept p (x ∷ xs) = elim (Bool-cases (p x)) [
  | inl e ↦
      let (to, back) = all_kept p xs in
      rw e ((λ h. (refl, to (omega (arith, h)))), (λ h. omega (arith, back h.1)))
  | inr e ↦ rw e ((λ h. absurd (omega (arith, h, length-keep-le p xs))), (λ h. absurd (cc (h.0))))
]

module _ {W P : Type 0} ⦃d : Double W⦄ (c : Criteria W) (lab : Lab W P) where
  open d use {lt}

  nested_report-passed :
      (total : ℕ) (g : NestedProgress W P)
      → c.require_all ≡ true
      → let r = nested_report c lab total g in
        (r.passed ≡ true) ↔ (
          (0 < total)
          × (g.windows_passed ≡ total)
          × (lt c.fragile_threshold (mean_degradation g.degradations) ≡ false))
  unfolding nested_report
  nested_report-passed total g e = rw (nested_report, e) (ground arith)

  -- A window has a champion whose validation meets the limits.
  abbrev pub IsWon : NestedWalkForwardWindowResult W P → Type 0
  IsWon x = (v : TrialEvaluation W) × (x.validation_evaluation ≡ some v) × MeetsLimits c v

  -- Where all windows are demanded, the nested run passes exactly if there is a window, each window
  -- has a champion whose evaluation on the validation segment is not rejected and meets the four
  -- limits, and the mean degradation is not above the threshold.
  pub run_nested_walkforward_iff :
      (seed : ℕ) (windows : List WalkForwardWindow)
      → c.require_all ≡ true
      → let r = run_nested_walkforward c lab seed windows in
        (r.passed ≡ true) ↔ (
          (0 < length windows)
          × All IsWon r.window_results
          × (lt c.fragile_threshold r.is_degradation_pct ≡ false))
  unfolding run_nested_walkforward nested_report
  run_nested_walkforward_iff seed windows e =
      let g = nested_windows c lab seed 0 windows no_nested_progress in
      let h = all-IsWalked c lab seed windows in
      let (to, back) = nested_report-passed (length windows) g e in
      let (all, enough) = all_kept (λ x. x.validation_passed) g.window_results in
      (
        (λ passed.
            let (some_window, n, stable) = to passed in
            (
              some_window,
              All-zip _ _ _ g.window_results (λ x j p. j.0 p) h.judged
                  (all (omega (arith, h.counted, h.many, n))),
              stable,
            )),
        (λ (some_window, won, stable). back (
          some_window,
          omega (
            arith,
            h.counted,
            h.many,
            enough (All-zip _ _ _ g.window_results (λ x j p. j.1 p) h.judged won),
          ),
          stable,
        )),
      )
