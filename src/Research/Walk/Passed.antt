-- ===== src/Research/Walk/Passed.antt =====
-- research_lab/walkforward.py, `run_walkforward`: when a candidate passes.
use btc_bot.Prelude.{
  ◌≡◌, ◌↔◌, refl, sym, ap, ◌∙◌, arith, ℕ, ◌+◌, ◌≤◌, true, false, Bool, Option, none, List, [], ◌∷◌,
  ◌++◌, map, length, All, inl, inr, Bool-cases, ◌&&◌, ◌==◌, ◌⊎◌, ◌<◌, ltb, String,
}
use btc_bot.Prelude.Double.{Double}
use btc_bot.Core.Models.{Time}
use btc_bot.Research.Trials.{TrialEvaluation}
use btc_bot.Research.Windows.{WalkForwardWindow}
use btc_bot.Research.Walk.{
  Criteria, Failure, Reason, Progress, has_none, added_if, rejection, segment_failures,
  judge_window, judge_windows, report_of, run_walkforward, mean_degradation, no_progress,
}

module _ {W : Type 0} ⦃d : Double W⦄ (c : Criteria W) where
  open d use {lt}

  -- The evaluation is not rejected and meets the four limits.
  abbrev pub MeetsLimits : TrialEvaluation W → Type 0
  MeetsLimits e =
      (e.rejected_reason ≡ none)
      × (lt e.metrics.expectancy_r c.min_expectancy_r ≡ false)
      × (lt e.metrics.profit_factor c.min_profit_factor ≡ false)
      × (lt c.max_drawdown_pct e.metrics.max_drawdown_pct ≡ false)
      × (lt e.metrics.sharpe_ratio c.min_sharpe_ratio ≡ false)

  pub added_if_iff :
      {A : Type 0} (b : Bool) (x : A) (xs : List A)
      → (has_none (added_if b x xs) ≡ true) ↔ ((b ≡ false) × (has_none xs ≡ true))
  added_if_iff false x xs = ((λ e. (refl, e)), (λ h. h.1))
  added_if_iff true x [] = ((λ e. absurd (cc)), (λ h. absurd (cc)))
  added_if_iff true x (y ∷ ys) = ((λ e. absurd (cc)), (λ h. absurd (cc)))

  rejection_iff : (o : Option String) → (has_none (rejection {W = W} o) ≡ true) ↔ (o ≡ none)
  rejection_iff o = ground arith

  pub segment_failures_iff :
      (e : TrialEvaluation W) → (has_none (segment_failures c e) ≡ true) ↔ MeetsLimits e
  unfolding segment_failures
  segment_failures_iff e =
      let (to1, back1) = rejection_iff e.rejected_reason in
      let (to2, back2) = added_if_iff (lt e.metrics.expectancy_r c.min_expectancy_r) _ _ in
      let (to3, back3) = added_if_iff (lt e.metrics.profit_factor c.min_profit_factor) _ _ in
      let (to4, back4) = added_if_iff (lt c.max_drawdown_pct e.metrics.max_drawdown_pct) _ _ in
      let (to5, back5) = added_if_iff (lt e.metrics.sharpe_ratio c.min_sharpe_ratio) _ _ in
      (
        (λ h5.
            let (sharpe, h4) = to5 h5 in
            let (drawdown, h3) = to4 h4 in
            let (factor, h2) = to3 h3 in
            let (expectancy, h1) = to2 h2 in (to1 h1, expectancy, factor, drawdown, sharpe)),
        (λ (reason, expectancy, factor, drawdown, sharpe).
            back5 (sharpe, back4 (drawdown, back3 (factor, back2 (expectancy, back1 reason))))),
      )

module _ {W : Type 0} ⦃d : Double W⦄ (c : Criteria W)
    (evaluate : Time → Time → TrialEvaluation W) where
  open d use {lt}

  -- Both of its segments do.
  abbrev pub IsPassed : WalkForwardWindow → Type 0
  IsPassed w =
      MeetsLimits c (evaluate w.train_start w.train_end)
      × MeetsLimits c (evaluate w.validation_start w.validation_end)

  none_failed :
      (i j : ℕ) (rs : List (Reason W)) (xs ys : List (Failure W))
      → (has_none xs && has_none ys) ≡ false
      → has_none ((rs ++ map (Reason.train_failed i) xs) ++ map (Reason.validation_failed j) ys)
        ≡ false
  none_failed i j (r ∷ rs) xs ys e = refl
  none_failed i j [] (x ∷ xs) ys e = refl
  none_failed i j [] [] (y ∷ ys) e = refl
  none_failed i j [] [] [] e = absurd (cc)

  -- How a window changes what the loop keeps
  abbrev IsJudged : WalkForwardWindow → Progress W → Progress W → Type 0
  IsJudged w g g' =
      (IsPassed w × (g'.windows_passed ≡ g.windows_passed + 1) × (g'.reasons ≡ g.reasons))
      ⊎ ((¬ IsPassed w) × (g'.windows_passed ≡ g.windows_passed) × (has_none g'.reasons ≡ false))

  judge_window_lem :
      (i : ℕ) (w : WalkForwardWindow) (g : Progress W)
      → IsJudged w g (judge_window c evaluate i w g)
  unfolding judge_window
  judge_window_lem i w g =
      let train = evaluate w.train_start w.train_end in
      let validation = evaluate w.validation_start w.validation_end in
      let xs = segment_failures c train in
      let ys = segment_failures c validation in
      let (to, back) = segment_failures_iff c train in
      let (to', back') = segment_failures_iff c validation in
      elim (Bool-cases (has_none xs && has_none ys)) [
        | inl e ↦ rw (judge_window, e) (inl ((to (ground arith), to' (ground arith)), refl, refl))
        | inr e ↦
            rw (judge_window, e)
              (inr (
                (λ (p, p'). let h = back p in let h' = back' p' in ground (arith, e)),
                refl,
                none_failed i i g.reasons xs ys e,
              ))
      ]

  judge_windows_lem :
      (i : ℕ) (ws : List WalkForwardWindow) (g : Progress W)
      → let g' = judge_windows c evaluate i ws g in
        (g'.windows_passed ≤ g.windows_passed + length ws)
        × ((g'.windows_passed ≡ g.windows_passed + length ws) → All IsPassed ws)
        × (has_none g'.reasons ≡ true → All IsPassed ws × (has_none g.reasons ≡ true))
        × (All IsPassed ws
            → (g'.windows_passed ≡ g.windows_passed + length ws) × (g'.reasons ≡ g.reasons))
  unfolding judge_windows
  judge_windows_lem i [] g = (omega arith, (λ h. tt), (λ h. (tt, h)), (λ h. (omega arith, refl)))
  judge_windows_lem i (w ∷ ws) g =
      let (most, full, silent, all) =
        judge_windows_lem (i + 1) ws (judge_window c evaluate i w g) in
      elim (judge_window_lem i w g) [
        | inl (p, count, same) ↦ (
          omega (arith, most, count),
          (λ h. (p, full (omega (arith, h, count)))),
          (λ h. let (a, e) = silent h in ((p, a), sym (ap has_none same) ∙ e)),
          (λ (q, a). let (n, r) = all a in (omega (arith, n, count), r ∙ same)),
        )
        | inr (n, count, told) ↦ (
          omega (arith, most, count),
          (λ h. absurd (omega (arith, most, count, h))),
          (λ h. let (a, e) = silent h in absurd (cc)),
          (λ (q, a). absurd (n q)),
        )
      ]

  has_none_iff : {A : Type 0} (xs : List A) → (has_none xs ≡ true) ↔ (xs ≡ [])
  has_none_iff [] = ((λ h. refl), (λ h. refl))
  has_none_iff (x ∷ xs) = ((λ h. absurd (cc)), (λ h. absurd (cc)))

  report_of-passed :
      (total : ℕ) (g : Progress W)
      → c.require_all ≡ true
      → let r = report_of c evaluate total g in
        (r.passed ≡ true) ↔ (
          (0 < total)
          × (g.windows_passed ≡ total)
          × (lt c.fragile_threshold (mean_degradation g.degradations) ≡ false))
  unfolding report_of
  report_of-passed total g e = rw (report_of, e) (ground arith)

  report_of-reasons :
      (total : ℕ) (g : Progress W)
      → c.require_all ≡ true
      → let r = report_of c evaluate total g in
        (has_none r.reasons ≡ true) ↔ (
          (0 < total)
          × (has_none g.reasons ≡ true)
          × (lt c.fragile_threshold (mean_degradation g.degradations) ≡ false)
          × (0 < g.windows_passed))
  unfolding report_of
  report_of-reasons total g e =
      let (to1, back1) = added_if_iff c (total == 0) Reason.no_windows_available g.reasons in
      let (to2, back2) =
        added_if_iff c (lt c.fragile_threshold (mean_degradation g.degradations)) _ _ in
      let (to4, back4) =
        added_if_iff c (ltb 0 total && g.windows_passed == 0) Reason.no_window_passed _ in
      rw (report_of, e)
        (
          (λ h4.
              let (missing, h3) = to4 h4 in
              let (stable, h1) = to2 h3 in
              let (nonempty, h) = to1 h1 in
              (ground (arith, nonempty), h, stable, ground (arith, nonempty, missing))),
          (λ (nonempty, h, stable, count). back4 (
            ground (arith, nonempty, count),
            back2 (stable, back1 (ground (arith, nonempty), h)),
          )),
        )

  -- Where all windows are demanded, the candidate passes exactly if there is a window, each window's
  -- two segments are not rejected and meet the four limits, and the mean degradation is not above
  -- the threshold; and exactly then the report gives no reason.
  pub run_walkforward_iff :
      (windows : List WalkForwardWindow)
      → c.require_all ≡ true
      → let r = run_walkforward c evaluate windows in
        let clean =
          (0 < length windows)
          × All IsPassed windows
          × (lt c.fragile_threshold r.is_degradation_pct ≡ false) in
        ((r.passed ≡ true) ↔ clean) × ((r.reasons ≡ []) ↔ clean)
  unfolding run_walkforward report_of
  run_walkforward_iff windows e =
      let g = judge_windows c evaluate 0 windows no_progress in
      let total = length windows in
      let (most, full, silent, all) = judge_windows_lem 0 windows no_progress in
      let (to, back) = report_of-passed total g e in
      let (to', back') = report_of-reasons total g e in
      let (nothing, empty) = has_none_iff (report_of c evaluate total g).reasons in
      (
        (
          (λ h. let (nonempty, n, stable) = to h in (nonempty, full (omega (arith, n)), stable)),
          (λ (nonempty, ps, stable). back (nonempty, omega (arith, (all ps).0), stable)),
        ),
        (
          (λ h.
              let (nonempty, h', stable, count) = to' (empty h) in
              (nonempty, (silent h').0, stable)),
          (λ (nonempty, ps, stable).
              let (n, same) = all ps in
              nothing (back' (nonempty, ap has_none same, stable, omega (arith, n, nonempty)))),
        ),
      )
