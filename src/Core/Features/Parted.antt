-- ===== src/Core/Features/Parted.antt =====
-- `detect_equal_levels` as a division of the touches: which clusters there are, and which of them are
-- levels.
use mathlib.Core.List.{Permᴰ}
use btc_bot.Prelude.{
  ℕ, ◌≤◌, ◌≡◌, refl, arith, false, Bool, Option, none, some, List, [], ◌∷◌, ◌++◌, map, keep, length,
  length-append, leb, ltb, ◌&&◌, All, Bool-cases, inl, inr,
}
use btc_bot.Prelude.Double.{Double}
use btc_bot.Prelude.Sorting.{sort, sort-perm}
use btc_bot.Prelude.Tails.{concat}
use btc_bot.Core.Features.Numbers.{mean}
use btc_bot.Core.Features.Levels.{
  span, by_price, cluster_levels, clusters, merge_clusters, detect_equal_levels,
}
use btc_bot.Core.Features.Clusters.{IsChain, concat-clusters, clusters-IsChain}

module _ {W : Type 0} ⦃d : Double W⦄ where
  open d use {round2}

  abbrev pub first_price : List (ℕ × W) → Option W
  first_price [] = none
  first_price (x ∷ xs) = some x.1

  abbrev pub last_price : List (ℕ × W) → Option W
  last_price [] = none
  last_price (x ∷ []) = some x.1
  last_price (x ∷ y ∷ ys) = last_price (y ∷ ys)

  last_price_snoc : (xs : List (ℕ × W)) (x : ℕ × W) → last_price (xs ++ (x ∷ [])) ≡ some x.1
  last_price_snoc [] x = refl
  last_price_snoc (a ∷ []) x = refl
  last_price_snoc (a ∷ b ∷ xs) x = last_price_snoc (b ∷ xs) x

  -- Enough touches over enough bars, and the level that they make.
  abbrev pub is_level : ℕ → ℕ → List (ℕ × W) → Bool
  is_level min_hits min_age_bars c =
      leb min_hits (length c) && leb min_age_bars (span (map (λ t. t.0) c))

  abbrev pub level_of : List (ℕ × W) → W
  level_of c = round2 (mean (map (λ t. t.1) c))

  merge_clusters-eq :
      (min_hits min_age_bars : ℕ) (css : List (List (ℕ × W)))
      → merge_clusters min_hits min_age_bars css
        ≡ map level_of (keep (is_level min_hits min_age_bars) css)
  unfolding merge_clusters
  merge_clusters-eq hits age [] = refl
  merge_clusters-eq hits age (c ∷ css) = elim (Bool-cases (ltb (length c) hits)) [
    | inl e ↦ ground (arith, e, merge_clusters-eq hits age css)
    | inr e ↦ elim (Bool-cases (ltb (span (map (λ t. t.0) c)) age)) [
      | inl f ↦ ground (arith, e, f, merge_clusters-eq hits age css)
      | inr f ↦ ground (arith, e, f, merge_clusters-eq hits age css)
    ]
  ]

module _ {W : Type 0} ⦃d : Double W⦄ (tolerance : W) where
  open d use {sub, abs, le}

  -- The second price is not within the tolerance of the first.
  abbrev pub IsFar : Option W → Option W → Type 0
  IsFar (some x) (some y) = le (abs (sub y x)) tolerance ≡ false
  IsFar _ _ = Unit

  -- There is a jump from a cluster's last touch to the first touch of the next.
  abbrev pub IsJump : Option W → List (List (ℕ × W)) → Type 0
  IsJump last [] = Unit
  IsJump last (c ∷ css) = IsFar last (first_price c)

  abbrev pub AreParted : List (List (ℕ × W)) → Type 0
  AreParted [] = Unit
  AreParted (c ∷ css) = IsJump (last_price c) css × AreParted css

  -- The sorted touches divided into stretches without a jump, at every jump.
  pub record IsDivision (sorted : List (ℕ × W)) (parts : List (List (ℕ × W))) : Type 0 where
    pub covers : concat parts ≡ sorted
    pub filled : All (λ c. 1 ≤ length c) parts
    pub chains : All (IsChain tolerance) parts
    pub parted : AreParted parts

  cluster_levels-IsJump :
      (last : Option W) (a : ℕ × W) (current : List (ℕ × W)) (price : W) (items : List (ℕ × W))
      → IsFar last (some a.1)
      → IsJump last (cluster_levels tolerance (a ∷ current) price items)
  unfolding cluster_levels
  cluster_levels-IsJump last a current price [] h = h
  cluster_levels-IsJump last a current price (y ∷ ys) h =
      elim (Bool-cases (le (abs (sub y.1 price)) tolerance)) [
        | inl e ↦ rw e (cluster_levels-IsJump last a (current ++ (y ∷ [])) y.1 ys h)
        | inr e ↦ rw e h
      ]

  cluster_levels-AreParted :
      (xs : List (ℕ × W)) (x : ℕ × W) (items : List (ℕ × W))
      → AreParted (cluster_levels tolerance (xs ++ (x ∷ [])) x.1 items)
  unfolding cluster_levels
  cluster_levels-AreParted xs x [] = (tt, tt)
  cluster_levels-AreParted xs x (y ∷ ys) = elim (Bool-cases (le (abs (sub y.1 x.1)) tolerance)) [
    | inl e ↦ rw e (cluster_levels-AreParted (xs ++ (x ∷ [])) y ys)
    | inr e ↦
        rw (e, last_price_snoc xs x)
          (cluster_levels-IsJump (some x.1) y [] y.1 ys e, cluster_levels-AreParted [] y ys)
  ]

  cluster_levels-filled :
      (current : List (ℕ × W)) (price : W) (items : List (ℕ × W))
      → 1 ≤ length current
      → All (λ c. 1 ≤ length c) (cluster_levels tolerance current price items)
  unfolding cluster_levels
  cluster_levels-filled current price [] h = (h, tt)
  cluster_levels-filled current price (y ∷ ys) h =
      elim (Bool-cases (le (abs (sub y.1 price)) tolerance)) [
        | inl e ↦ rw e (
            cluster_levels-filled (current ++ (y ∷ [])) y.1 ys
              (omega (arith, length-append current (y ∷ []))))
        | inr e ↦ rw e (h, cluster_levels-filled (y ∷ []) y.1 ys (omega arith))
      ]

  clusters-IsDivision : (sorted : List (ℕ × W)) → IsDivision sorted (clusters tolerance sorted)
  clusters-IsDivision [] = record { covers = refl; filled = tt; chains = tt; parted = tt }
  clusters-IsDivision (x ∷ xs) = record {
    covers = concat-clusters tolerance (x ∷ xs);
    filled = cluster_levels-filled (x ∷ []) x.1 xs (omega arith);
    chains = clusters-IsChain tolerance (x ∷ xs);
    parted = cluster_levels-AreParted [] x xs;
  }

  -- A division of the touches, with the levels that come from it.
  pub record IsClustered (min_hits min_age_bars : ℕ) (levels : List (ℕ × W)) (found : List W)
      : Type 0 where
    pub parts : List (List (ℕ × W))
    pub same_touches : Permᴰ (concat parts) levels
    pub division : IsDivision (sort by_price levels) parts
    pub means : found ≡ map level_of (keep (is_level min_hits min_age_bars) parts)

  -- The touches, sorted by price, fall into stretches: within one each touch is within the tolerance
  -- of the one before, from one to the next it is not, and every touch is in exactly one. The
  -- detected levels are, in order, the means, rounded to two decimals, of exactly those stretches
  -- that have at least `min_hits` touches and span at least `min_age_bars` bars.
  pub detect_equal_levels-IsClustered :
      (levels : List (ℕ × W)) (min_hits min_age_bars : ℕ)
      → IsClustered min_hits min_age_bars levels
          (detect_equal_levels levels tolerance min_hits min_age_bars)
  unfolding detect_equal_levels
  detect_equal_levels-IsClustered levels hits age = record {
    parts = clusters tolerance (sort by_price levels);
    same_touches =
        rw (concat-clusters tolerance (sort by_price levels)) (sort-perm by_price levels);
    division = clusters-IsDivision (sort by_price levels);
    means = merge_clusters-eq hits age (clusters tolerance (sort by_price levels));
  }
