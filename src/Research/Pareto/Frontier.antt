-- ===== src/Research/Pareto/Frontier.antt =====
-- The frontier: the accepted trials that no accepted trial dominates, and every other one lies below
-- a trial of the frontier.
use mathlib.Core.Path.{subst, sym}
use mathlib.Core.Option.{some-injective}
use btc_bot.Prelude.{
  ℕ, length, true, Some, Some-elim, any-Some, Some-keep, Some-map, length-keep-lt, get_elem?, ◌<◌,
  ◌⊎◌, zero, suc, ◌+◌, ◌≡◌, refl, ◌∙◌, ap, Bool, false, not, some, List, [], ◌∷◌, keep, any, arith,
  ◌==◌, Bool-cases, inl, inr,
}
use btc_bot.Prelude.Double.{Double, IsOrdered}
use btc_bot.Research.Trials.{TrialEvaluation}
use btc_bot.Research.Pareto.{
  number_from, dominates, accepted, is_dominated, collect, compute_pareto_frontier,
}
use btc_bot.Research.Pareto.Order.{dominates_irrefl, dominates_trans}

-- Some trial of the list dominates the trial.
abbrev pub beaten :
    {W : Type 0} ⦃d : Double W⦄ → List (TrialEvaluation W) → TrialEvaluation W → Bool
beaten xs t = any (λ o. dominates o t) xs

module _ {W : Type 0} ⦃d : Double W⦄ (laws : IsOrdered W) where
  -- To leave out the candidate's own position changes nothing, since no trial dominates itself.
  is_dominated-eq :
      (n : ℕ) (xs : List (TrialEvaluation W)) (i : ℕ) (t : TrialEvaluation W)
      → ((k : ℕ) → i ≡ n + k → get_elem? xs k ≡ some t)
      → is_dominated (number_from n xs) i t ≡ beaten xs t
  unfolding is_dominated
  is_dominated-eq n [] i t h = refl
  is_dominated-eq n (x ∷ xs) i t h =
      let rest = is_dominated-eq (n + 1) xs i t (λ k e. h (suc k) (omega arith)) in
      elim (Bool-cases (n == i)) [
        | inl here ↦
            let same : x ≡ t = some-injective _ _ (h zero (ground arith)) in
            let never : dominates x t ≡ false = rw same (dominates_irrefl laws t) in
            ground (arith, rest)
        | inr there ↦ ground (arith, rest)
      ]

  collect-eq-keep :
      (acc : List (TrialEvaluation W)) (n : ℕ) (ys : List (TrialEvaluation W))
      → ((k : ℕ)
          → (t : TrialEvaluation W) → get_elem? ys k ≡ some t
          → get_elem? acc (n + k) ≡ some t)
      → collect (number_from 0 acc) (number_from n ys) ≡ keep (λ t. not (beaten acc t)) ys
  unfolding collect
  collect-eq-keep acc n [] h = refl
  collect-eq-keep acc n (y ∷ ys) h =
      let own : get_elem? acc n ≡ some y = ap (get_elem? acc) (omega arith) ∙ h zero y refl in
      let same : is_dominated (number_from 0 acc) n y ≡ beaten acc y =
        is_dominated-eq 0 acc n y (λ k e. ap (get_elem? acc) (omega arith) ∙ own) in
      let rest =
        collect-eq-keep acc (n + 1) ys
          (λ k t e. ap (get_elem? acc) (omega arith) ∙ h (suc k) t e) in
      rw (same, rest)

  -- The frontier is the list of the accepted trials that no accepted trial dominates, in order.
  pub frontier-eq-keep :
      (trials : List (TrialEvaluation W))
      → compute_pareto_frontier trials
        ≡ keep (λ t. not (beaten (accepted trials) t)) (accepted trials)
  unfolding compute_pareto_frontier
  frontier-eq-keep trials =
      collect-eq-keep (accepted trials) 0 (accepted trials)
        (λ k t e. ap (get_elem? (accepted trials)) (omega arith) ∙ e)

  -- Going up from a beaten trial ends, for a trial that dominates has fewer that dominate it.
  climb :
      (acc : List (TrialEvaluation W)) (n : ℕ) (t : TrialEvaluation W)
      → length (keep (λ o. dominates o t) acc) < n
      → beaten acc t ≡ true
      → Some (λ m. (dominates m t ≡ true) × (not (beaten acc m) ≡ true)) acc
  climb acc zero t fuel h = absurd (omega arith)
  climb acc (suc n) t fuel h =
      let (o, above, put) = Some-elim _ acc (any-Some (λ o. dominates o t) acc h) in
      elim (Bool-cases (beaten acc o)) [
        | inr top ↦ put (λ m. (dominates m t ≡ true) × (not (beaten acc m) ≡ true)) (above, rw top)
        | inl more ↦
            let fewer =
              length-keep-lt (λ m. dominates m o) (λ m. dominates m t) acc
                (λ m e. dominates_trans laws m o t e above)
                (put (λ m. (dominates m t ≡ true) × (dominates m o ≡ false))
                  (above, dominates_irrefl laws o)) in
            Some-map _ _ acc (λ m e. (dominates_trans laws m o t e.0 above, e.1))
              (climb acc n o (omega arith) more)
      ]

  -- Every accepted trial is on the frontier, or a trial of the frontier dominates it.
  pub frontier_covers :
      (trials : List (TrialEvaluation W)) (t : TrialEvaluation W)
      → Some (λ x. x ≡ t) (accepted trials)
      → Some (λ m. (m ≡ t) ⊎ (dominates m t ≡ true)) (compute_pareto_frontier trials)
  frontier_covers trials t s =
      let acc = accepted trials in
      rw (frontier-eq-keep trials) (
        Some-keep (λ m. not (beaten acc m)) (λ m. (m ≡ t) ⊎ (dominates m t ≡ true)) acc
          (elim (Bool-cases (beaten acc t)) [
            | inl below ↦
                Some-map _ _ acc (λ m e. (inr e.0, e.1))
                  (climb acc (suc (length (keep (λ o. dominates o t) acc))) t (omega arith) below)
            | inr top ↦
                Some-map _ _ acc
                  (λ m e. (inl e, subst (λ u. not (beaten acc u) ≡ true) (sym e) (rw top))) s
          ]))
