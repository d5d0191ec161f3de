-- ===== src/Core/Features/Levels.antt =====
-- core/feature_engine.py: `detect_equal_levels`. A touch is a bar's index with its price.
use btc_bot.Prelude.{ℕ, ◌-◌, Bool, List, [], ◌∷◌, ◌++◌, map, foldl, length, ltb, if◌then◌else◌}
use Prim.Native.Nat.{min as min_nat, max as max_nat}
use btc_bot.Prelude.Double.{Double}
use btc_bot.Prelude.Sorting.{sort}
use btc_bot.Core.Features.Numbers.{mean}

abbrev pub span : List ℕ → ℕ
span [] = 0
span (i ∷ is) = foldl max_nat i is - foldl min_nat i is

module _ {W : Type 0} ⦃d : Double W⦄ where
  open d use {sub, abs, le, lt, round2}

  abbrev pub by_price : (ℕ × W) → (ℕ × W) → Bool
  by_price a b = lt a.1 b.1

  -- the loop over the sorted touches, with the current cluster and the price of its last touch
  unfoldable pub cluster_levels : W → List (ℕ × W) → W → List (ℕ × W) → List (List (ℕ × W))
  cluster_levels tolerance current last [] = current ∷ []
  cluster_levels tolerance current last (item ∷ items) =
      let near = le (abs (sub item.1 last)) tolerance in
      let next = if near then current ++ (item ∷ []) else item ∷ [] in
      let rest = cluster_levels tolerance next item.1 items in if near then rest else current ∷ rest

  abbrev pub clusters : W → List (ℕ × W) → List (List (ℕ × W))
  clusters tolerance [] = []
  clusters tolerance (x ∷ xs) = cluster_levels tolerance (x ∷ []) x.1 xs

  -- the loop over the clusters
  unfoldable pub merge_clusters : ℕ → ℕ → List (List (ℕ × W)) → List W
  merge_clusters min_hits min_age_bars [] = []
  merge_clusters min_hits min_age_bars (cluster ∷ rest) =
      let merged = merge_clusters min_hits min_age_bars rest in
      if ltb (length cluster) min_hits
      then merged
      else if ltb (span (map (λ t. t.0) cluster)) min_age_bars
      then merged
      else round2 (mean (map (λ t. t.1) cluster)) ∷ merged

  unfoldable pub detect_equal_levels : List (ℕ × W) → W → ℕ → ℕ → List W
  unfolding cluster_levels merge_clusters sort
  detect_equal_levels levels tolerance min_hits min_age_bars =
      merge_clusters min_hits min_age_bars (clusters tolerance (sort by_price levels))
