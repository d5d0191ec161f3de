-- ===== src/Core/Funding.antt =====
-- core/funding.py: the funding that a position pays between its opening and its closing. A sample
-- is an object or a dictionary row, whose time may be missing.
pub mod Intervals
use btc_bot.Prelude.{
  ℕ, Bool, true, false, ◌&&◌, Option, none, some, List, [], ◌∷◌, foldl, ltb, leb, keep,
  if◌then◌else◌,
}
use btc_bot.Prelude.Double.{Double, nought}
use btc_bot.Prelude.Sorting.{sort, before}
use btc_bot.Core.Models.{Time, Direction, long, short}

pub record FundingRateSample (W : Type 0) : Type 0 where
  pub funding_time : Time
  pub funding_rate : W

pub data RawSample (W : Type 0) : Type 0 where
  object : FundingRateSample W → RawSample W
  row : Option Time → Option W → RawSample W

module _ {W : Type 0} ⦃d : Double W⦄ where
  open d use {add, mul, le, neg, of_nat}

  -- one turn of the loop of `normalize_funding_samples`
  abbrev pub normalize_one : RawSample W → Option (FundingRateSample W)
  normalize_one (object s) = some s
  normalize_one (row none rate) = none
  normalize_one (row (some t) none) = some (record { funding_time = t; funding_rate = nought })
  normalize_one (row (some t) (some r)) = some (record { funding_time = t; funding_rate = r })

  -- A skipped sample adds nothing to the list.
  abbrev pub attach :
      Option (FundingRateSample W) → List (FundingRateSample W) → List (FundingRateSample W)
  attach none ss = ss
  attach (some s) ss = s ∷ ss

  unfoldable pub collect : List (RawSample W) → List (FundingRateSample W)
  collect [] = []
  collect (x ∷ xs) = attach (normalize_one x) (collect xs)

  unfoldable pub normalize_funding_samples : List (RawSample W) → List (FundingRateSample W)
  unfolding collect sort
  normalize_funding_samples samples = sort (before (λ s. s.funding_time)) (collect samples)

  -- one turn of the loop of `compute_funding_paid`
  abbrev pub add_rate : W → Time → Time → FundingRateSample W → W
  add_rate acc opened closed s =
      if ltb opened s.funding_time && leb s.funding_time closed then add acc s.funding_rate else acc

  -- the loop, from a running total
  unfoldable pub total_rate : W → Time → Time → List (FundingRateSample W) → W
  total_rate acc opened closed [] = acc
  total_rate acc opened closed (s ∷ ss) = total_rate (add_rate acc opened closed s) opened closed ss

  abbrev pub multiplier : Direction → W
  multiplier Direction.long = of_nat 1
  multiplier Direction.short = neg (of_nat 1)

  unfoldable pub compute_funding_paid : Direction → W → Time → Time → List (RawSample W) → W
  unfolding normalize_funding_samples total_rate
  compute_funding_paid direction notional opened closed samples =
      if le notional nought
      then nought
      else if leb closed opened
      then nought
      else mul (mul notional (total_rate nought opened closed (normalize_funding_samples samples)))
          (multiplier direction)
