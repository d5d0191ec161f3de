-- ===== src/Core/Features/Clusters.antt =====
-- Where the levels of `detect_equal_levels` come from.
use mathlib.Core.Path.{subst}
use btc_bot.Prelude.{
  ℕ, ◌*◌, ◌≤◌, ◌≡◌, refl, arith, List, [], ◌∷◌, ◌++◌, map, length, length-append, ltb, All,
  Bool-cases, inl, inr,
}
use btc_bot.Prelude.Double.{Double, ◌≼◌}
use btc_bot.Prelude.Sorting.{sort, length-sort}
use btc_bot.Prelude.Tails.{concat}
use btc_bot.Core.Features.Numbers.{mean}
use btc_bot.Core.Features.Levels.{
  span, by_price, cluster_levels, clusters, merge_clusters, detect_equal_levels,
}

append_assoc : {A : Type 0} (xs ys zs : List A) → (xs ++ ys) ++ zs ≡ xs ++ (ys ++ zs)
append_assoc [] ys zs = refl
append_assoc (x ∷ xs) ys zs = cc (append_assoc xs ys zs)

module _ {W : Type 0} ⦃d : Double W⦄ (tolerance : W) where
  open d use {sub, abs, le, round2}

  -- Neighbours differ by no more than the tolerance.
  abbrev pub IsChain : List (ℕ × W) → Type 0
  IsChain [] = Unit
  IsChain (x ∷ []) = Unit
  IsChain (x ∷ y ∷ ys) = (abs (sub y.1 x.1) ≼ tolerance) × IsChain (y ∷ ys)

  snoc-IsChain :
      (xs : List (ℕ × W)) (x y : ℕ × W)
      → IsChain (xs ++ (x ∷ []))
      → abs (sub y.1 x.1) ≼ tolerance
      → IsChain ((xs ++ (x ∷ [])) ++ (y ∷ []))
  snoc-IsChain [] x y h k = (k, tt)
  snoc-IsChain (a ∷ []) x y h k = (h.0, (k, tt))
  snoc-IsChain (a ∷ b ∷ xs) x y h k = (h.0, snoc-IsChain (b ∷ xs) x y h.1 k)

  cluster_levels-IsChain :
      (xs : List (ℕ × W)) (x : ℕ × W) (items : List (ℕ × W))
      → IsChain (xs ++ (x ∷ []))
      → All IsChain (cluster_levels tolerance (xs ++ (x ∷ [])) x.1 items)
  unfolding cluster_levels
  cluster_levels-IsChain xs x [] h = (h, tt)
  cluster_levels-IsChain xs x (y ∷ ys) h = elim (Bool-cases (le (abs (sub y.1 x.1)) tolerance)) [
    | inl e ↦ rw e (cluster_levels-IsChain (xs ++ (x ∷ [])) y ys (snoc-IsChain xs x y h e))
    | inr e ↦ rw e (h, cluster_levels-IsChain [] y ys tt)
  ]

  concat-cluster_levels :
      (current : List (ℕ × W)) (last : W) (items : List (ℕ × W))
      → concat (cluster_levels tolerance current last items) ≡ current ++ items
  unfolding cluster_levels
  concat-cluster_levels current last [] = refl
  concat-cluster_levels current last (y ∷ ys) =
      elim (Bool-cases (le (abs (sub y.1 last)) tolerance)) [
        | inl e ↦
            rw (e, concat-cluster_levels (current ++ (y ∷ [])) y.1 ys)
              (append_assoc current (y ∷ []) ys)
        | inr e ↦ rw (e, concat-cluster_levels (y ∷ []) y.1 ys) refl
      ]

  pub concat-clusters : (xs : List (ℕ × W)) → concat (clusters tolerance xs) ≡ xs
  concat-clusters [] = refl
  concat-clusters (x ∷ xs) = concat-cluster_levels (x ∷ []) x.1 xs

  pub clusters-IsChain : (xs : List (ℕ × W)) → All IsChain (clusters tolerance xs)
  clusters-IsChain [] = tt
  clusters-IsChain (x ∷ xs) = cluster_levels-IsChain [] x xs tt

  -- A price level is the rounded mean of a stretch of the sorted touches, without a jump, with
  -- enough touches, over enough bars.
  pub record IsBacked (min_hits min_age_bars : ℕ) (sorted : List (ℕ × W)) (level : W) : Type 0 where
    pub before : List (ℕ × W)
    pub cluster : List (ℕ × W)
    pub after : List (ℕ × W)
    pub stretch : sorted ≡ before ++ (cluster ++ after)
    pub mean_of : level ≡ round2 (mean (map (λ t. t.1) cluster))
    pub chain : IsChain cluster
    pub hits : min_hits ≤ length cluster
    pub age : min_age_bars ≤ span (map (λ t. t.0) cluster)

  merge_clusters-IsBacked :
      (min_hits min_age_bars : ℕ) (front : List (ℕ × W)) (css : List (List (ℕ × W)))
      → All IsChain css
      → All
          (IsBacked min_hits min_age_bars (front ++ concat css))
          (merge_clusters min_hits min_age_bars css)
  unfolding merge_clusters
  merge_clusters-IsBacked hits age front [] h = tt
  merge_clusters-IsBacked hits age front (c ∷ css) h =
      let rest : All (IsBacked hits age (front ++ (c ++ concat css)))
          (merge_clusters hits age css) =
        rw (← append_assoc front c (concat css))
          (merge_clusters-IsBacked hits age (front ++ c) css h.1) in
      elim (Bool-cases (ltb (length c) hits)) [
        | inl e ↦ rw e rest
        | inr e ↦ rw e (elim (Bool-cases (ltb (span (map (λ t. t.0) c)) age)) [
          | inl f ↦ rw f rest
          | inr f ↦ rw f (
            record {
              before = front;
              cluster = c;
              after = concat css;
              stretch = refl;
              mean_of = refl;
              chain = h.0;
              hits = ground (arith, e);
              age = ground (arith, f);
            },
            rest,
          )
        ])
      ]

  length-merge_clusters :
      (min_hits min_age_bars : ℕ) (css : List (List (ℕ × W)))
      → length (merge_clusters min_hits min_age_bars css) * min_hits ≤ length (concat css)
  unfolding merge_clusters
  length-merge_clusters hits age [] = omega arith
  length-merge_clusters hits age (c ∷ css) =
      let m = length (merge_clusters hits age css) in
      let enough : m * hits ≤ length (c ++ concat css) =
        omega (arith, length-merge_clusters hits age css, length-append c (concat css)) in
      elim (Bool-cases (ltb (length c) hits)) [
        | inl e ↦ rw e enough
        | inr e ↦ rw e (elim (Bool-cases (ltb (span (map (λ t. t.0) c)) age)) [
          | inl f ↦ rw f enough
          | inr f ↦ rw f (
              let h : hits ≤ length c = ground (arith, e) in
              omega (arith, length-merge_clusters hits age css, length-append c (concat css)))
        ])
      ]

  -- Every level that is detected is the mean, rounded to two decimals, of touches that stand
  -- together in the list sorted by price, each within the tolerance of the one before, at least
  -- `min_hits` of them, over at least `min_age_bars` bars. And the number of levels times
  -- `min_hits` is at most the number of touches.
  detect_equal_levels-IsBacked :
      (levels : List (ℕ × W)) (min_hits min_age_bars : ℕ)
      → All
          (IsBacked min_hits min_age_bars (sort by_price levels))
          (detect_equal_levels levels tolerance min_hits min_age_bars)
        × (length (detect_equal_levels levels tolerance min_hits min_age_bars) * min_hits
            ≤ length levels)
  unfolding detect_equal_levels
  detect_equal_levels-IsBacked levels hits age =
      let sorted = sort by_price levels in
      let same = concat-clusters sorted in
      let bound = length-merge_clusters hits age (clusters tolerance sorted) in
      (
        subst
            (λ xs. All (IsBacked hits age xs) (merge_clusters hits age (clusters tolerance sorted)))
            same
            (merge_clusters-IsBacked hits age [] (clusters tolerance sorted)
              (clusters-IsChain sorted)),
        (let sizes : length (concat (clusters tolerance sorted)) ≡ length levels =
              rw same (length-sort by_price levels) in
            rw (← sizes) bound),
      )
