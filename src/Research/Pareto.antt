-- ===== src/Research/Pareto.antt =====
-- research_lab/pareto.py. `other is candidate` compares positions in the list of accepted trials;
-- the order of strings is the argument `str_lt` of the ranking.
pub mod Order
pub mod Frontier
use btc_bot.Prelude.{
  ℕ, suc, ◌+◌, String, Bool, true, false, not, ◌&&◌, ◌||◌, Option, none, some, List, [], ◌∷◌, map,
  keep, any, is_some, ◌==◌, ltb, if◌then◌else◌,
}
use btc_bot.Prelude.Double.{Double}
use btc_bot.Prelude.Sorting.{sort}
use btc_bot.Research.Trials.{TrialEvaluation, ObjectiveMetrics}

abbrev number_from {ℓ} : {A : Type ℓ} → ℕ → List A → List (ℕ × A)
number_from n [] = []
number_from n (x ∷ xs) = (n, x) ∷ number_from (n + 1) xs

module _ {W : Type 0} ⦃d : Double W⦄ where
  open d use {neg, le, lt, eq}

  unfoldable pub dominates : TrialEvaluation W → TrialEvaluation W → Bool
  dominates left right =
      let l = left.metrics in
      let r = right.metrics in
      let no_worse =
        le r.expectancy_r l.expectancy_r
        && le r.profit_factor l.profit_factor
        && le l.max_drawdown_pct r.max_drawdown_pct in
      let strictly_better =
        lt r.expectancy_r l.expectancy_r
        || lt r.profit_factor l.profit_factor
        || lt l.max_drawdown_pct r.max_drawdown_pct in
      no_worse && strictly_better

  unfoldable pub accepted : List (TrialEvaluation W) → List (TrialEvaluation W)
  accepted = keep (λ t. not (is_some t.rejected_reason))

  -- the inner loop, for the candidate at position `i`
  unfoldable pub is_dominated : List (ℕ × TrialEvaluation W) → ℕ → TrialEvaluation W → Bool
  is_dominated others i t = any (λ o. not (o.0 == i) && dominates o.1 t) others

  -- the outer loop, over the rest of the candidates
  unfoldable pub collect :
      List (ℕ × TrialEvaluation W) → List (ℕ × TrialEvaluation W) → List (TrialEvaluation W)
  collect others [] = []
  collect others (x ∷ xs) =
      if not (is_dominated others x.0 x.1) then x.1 ∷ collect others xs else collect others xs

  unfoldable pub compute_pareto_frontier : List (TrialEvaluation W) → List (TrialEvaluation W)
  unfolding collect is_dominated dominates accepted
  compute_pareto_frontier trials =
      let numbered = number_from 0 (accepted trials) in collect numbered numbered

  -- `<` of two key tuples: the first pair that differs decides.
  abbrev first_of_pair : W → W → Bool → Bool
  first_of_pair a b rest = if not (eq a b) then lt a b else rest

  unfoldable pub ranks_before :
      (String → String → Bool) → TrialEvaluation W → TrialEvaluation W → Bool
  ranks_before str_lt left right =
      let l = left.metrics in
      let r = right.metrics in
      let last =
        if not (l.trades_count == r.trades_count)
        then ltb r.trades_count l.trades_count
        else str_lt left.trial_id right.trial_id in
      first_of_pair (neg l.expectancy_r) (neg r.expectancy_r) (
        first_of_pair (neg l.profit_factor) (neg r.profit_factor)
          (first_of_pair l.max_drawdown_pct r.max_drawdown_pct last))

  unfoldable pub rank_pareto_candidates :
      (String → String → Bool) → List (TrialEvaluation W) → List (TrialEvaluation W)
  unfolding ranks_before sort
  rank_pareto_candidates str_lt = sort (ranks_before str_lt)
