-- ===== src/Core/Funding/Intervals.antt =====
-- Funding over intervals: a stay in two parts, and samples in another order.
use mathlib.Core.List.{Permᴰ}
use mathlib.Core.List.Permᴰ
use mathlib.Core.Path.{subst, sym}
use btc_bot.Prelude.{
  ◌∙◌, ◌||◌, if◌then◌else◌, foldl, map, keep, Bool-cases, ◌≤◌, ◌<◌, ◌≡◌, refl, false, ◌&&◌, arith,
  Option, none, some, List, [], ◌∷◌, ltb, leb, All, inl, inr, le_or_lt,
}
use btc_bot.Prelude.Double.{Double, nought}
use btc_bot.Prelude.Sorting.{IsSorted, HasDistinctKeys, sort-IsSorted, sort_of_perm}
use btc_bot.Core.Models.{Time, Direction}
use btc_bot.Core.Funding.{
  FundingRateSample, RawSample, collect, attach, normalize_one, add_rate, normalize_funding_samples,
  total_rate, multiplier, compute_funding_paid,
}

module _ {W : Type 0} ⦃d : Double W⦄ where
  attach-perm :
      (o : Option (FundingRateSample W)) {ss ts : List (FundingRateSample W)}
      → Permᴰ ss ts
      → Permᴰ (attach o ss) (attach o ts)
  attach-perm none p = p
  attach-perm (some s) p = Permᴰ.cons refl p

  attach-swap :
      (o o' : Option (FundingRateSample W)) (ss : List (FundingRateSample W))
      → Permᴰ (attach o (attach o' ss)) (attach o' (attach o ss))
  attach-swap none o' ss = Permᴰ.refl _
  attach-swap (some s) none ss = Permᴰ.refl _
  attach-swap (some s) (some t) ss = Permᴰ.swap refl refl

  -- The samples that are collected come in another order if the raw ones do.
  collect-perm : {xs ys : List (RawSample W)} → Permᴰ xs ys → Permᴰ (collect xs) (collect ys)
  unfolding collect
  collect-perm Permᴰ.nil = Permᴰ.nil
  collect-perm (Permᴰ.cons {b = b} e p) = rw e (attach-perm (normalize_one b) (collect-perm p))
  collect-perm (Permᴰ.swap {a = a} {b = b} {l = l} e f) =
      rw (← e, ← f) (attach-swap (normalize_one a) (normalize_one b) (collect l))
  collect-perm (Permᴰ.trans p q) = Permᴰ.trans (collect-perm p) (collect-perm q)

  -- Beyond the closing time nothing more is added.
  total_rate_late :
      (acc : W) (opened closed : Time) (ss : List (FundingRateSample W))
      → All (λ s. closed < s.funding_time) ss
      → total_rate acc opened closed ss ≡ acc
  unfolding total_rate
  total_rate_late acc opened closed [] h = refl
  total_rate_late acc opened closed (s ∷ ss) h =
      let skip : (ltb opened s.funding_time && leb s.funding_time closed) ≡ false =
        ground (arith, h.0) in
      rw skip (total_rate_late acc opened closed ss h.1)

  -- The opening time does not matter to samples that come after both.
  total_rate_early :
      (acc : W) (a b c : Time) (ss : List (FundingRateSample W))
      → a ≤ b
      → All (λ s. b < s.funding_time) ss
      → total_rate acc a c ss ≡ total_rate acc b c ss
  unfolding total_rate
  total_rate_early acc a b c [] h k = refl
  total_rate_early acc a b c (s ∷ ss) h k =
      let same : (ltb a s.funding_time && leb s.funding_time c)
          ≡ (ltb b s.funding_time && leb s.funding_time c) =
        ground (arith, k.0) in
      rw same (total_rate_early (add_rate acc b c s) a b c ss h k.1)

  later :
      (b : Time) (x : FundingRateSample W) (ss : List (FundingRateSample W))
      → b < x.funding_time
      → All (λ y. x.funding_time ≤ y.funding_time) ss
      → All (λ s. b < s.funding_time) ss
  later b x [] h k = tt
  later b x (s ∷ ss) h k = (omega (arith, k.0), later b x ss h k.1)

  total_rate_split :
      (acc : W) (a b c : Time) (ss : List (FundingRateSample W))
      → a ≤ b
      → b ≤ c
      → IsSorted (λ s. s.funding_time) ss
      → total_rate acc a c ss ≡ total_rate (total_rate acc a b ss) b c ss
  unfolding total_rate
  total_rate_split acc a b c [] h k s = refl
  total_rate_split acc a b c (x ∷ ss) h k s = elim (le_or_lt x.funding_time b) [
    | inl first ↦
        let skip : (ltb b x.funding_time && leb x.funding_time c) ≡ false = ground (arith, first) in
        let same : (ltb a x.funding_time && leb x.funding_time c)
            ≡ (ltb a x.funding_time && leb x.funding_time b) =
          ground (arith, first) in
        rw (skip, same) (total_rate_split (add_rate acc a b x) a b c ss h k s.1)
    | inr second ↦
        let after : All (λ s'. b < s'.funding_time) (x ∷ ss) = (second, later b x ss second s.0) in
        subst (λ t. total_rate acc a c (x ∷ ss) ≡ total_rate t b c (x ∷ ss))
          (sym (total_rate_late acc a b (x ∷ ss) after))
          (total_rate_early acc a b c (x ∷ ss) h after)
  ]

  -- The total from `a` to `c` of any samples is the total from `b` to `c` that starts with the total
  -- from `a` to `b`.
  funding_split :
      (acc : W) (a b c : Time) (samples : List (RawSample W))
      → a ≤ b
      → b ≤ c
      → let ss = normalize_funding_samples samples in
        total_rate acc a c ss ≡ total_rate (total_rate acc a b ss) b c ss
  unfolding normalize_funding_samples
  funding_split acc a b c samples h k =
      total_rate_split acc a b c (normalize_funding_samples samples) h k
        (sort-IsSorted (λ s. s.funding_time) (collect samples))

  -- The rates of the payments after `a` and up to `b`, earliest first.
  abbrev pub due : Time → Time → List (RawSample W) → List W
  due a b samples =
      map (λ s. s.funding_rate)
        (keep (λ s. ltb a s.funding_time && leb s.funding_time b)
          (normalize_funding_samples samples))

  total_rate-eq :
      (acc : W) (a b : Time) (ss : List (FundingRateSample W))
      → total_rate acc a b ss
        ≡ foldl d.add acc (
            map (λ s. s.funding_rate) (keep (λ s. ltb a s.funding_time && leb s.funding_time b) ss))
  unfolding total_rate
  total_rate-eq acc a b [] = refl
  total_rate-eq acc a b (s ∷ ss) =
      elim (Bool-cases (ltb a s.funding_time && leb s.funding_time b)) [
        | inl e ↦ rw e (total_rate-eq (d.add acc s.funding_rate) a b ss)
        | inr e ↦ rw e (total_rate-eq acc a b ss)
      ]

  -- The funding of a position that is open from `a` to `c`, seen at any time `b` between: nothing
  -- for a notional of zero or less and for a stay without length, and otherwise the notional times
  -- the sum of the rates due from `a` to `b` and then from `b` to `c`, with the direction's sign. So
  -- no payment is lost or counted twice at `b`, and one at `b` belongs to the first part.
  pub compute_funding_paid_parts :
      (direction : Direction) (notional : W) (a b c : Time) (samples : List (RawSample W))
      → a ≤ b
      → b ≤ c
      → compute_funding_paid direction notional a c samples ≡ (
          if d.le notional nought || leb c a
          then nought
          else let first = foldl d.add nought (due a b samples) in
            d.mul (d.mul notional (foldl d.add first (due b c samples))) (multiplier direction))
  unfolding compute_funding_paid
  compute_funding_paid_parts direction notional a b c samples h k =
      let ss = normalize_funding_samples samples in
      let first = total_rate-eq nought a b ss in
      let both : total_rate nought a c ss
          ≡ foldl d.add (foldl d.add nought (due a b samples)) (due b c samples) =
        rw (← first) (funding_split nought a b c samples h k ∙ total_rate-eq _ b c ss) in
      rw (← both) (ground arith)

  -- The funding of a position does not depend on the order in which the samples come, if no two
  -- that count have the same time.
  funding_of_perm :
      (direction : Direction) (notional : W) (opened closed : Time) (xs ys : List (RawSample W))
      → Permᴰ xs ys
      → HasDistinctKeys (λ s. s.funding_time) (collect xs)
      → compute_funding_paid direction notional opened closed xs
        ≡ compute_funding_paid direction notional opened closed ys
  funding_of_perm direction notional opened closed xs ys p h =
      let same : normalize_funding_samples xs ≡ normalize_funding_samples ys =
        unfold normalize_funding_samples in sort_of_perm (λ s. s.funding_time) (collect-perm p) h in
      unfold compute_funding_paid in rw same
