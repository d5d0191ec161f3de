-- ===== src/Core/Features/Found.antt =====
-- What `detect_sweep_reclaim` finds, against a search for the first level that was swept.
use btc_bot.Prelude.{
  ◌<◌, ◌≡◌, refl, ltb, Bool, true, false, not, ◌&&◌, Option, none, some, List, [], ◌∷◌, length,
  arith, if◌then◌else◌, is_some, Bool-cases, inl, inr,
}
use btc_bot.Prelude.Double.{Double, nought, max, min}
use btc_bot.Prelude.Tails.{last}
use btc_bot.Core.Candles.{Candle}
use btc_bot.Core.Models.{SweepSide}
use btc_bot.Core.Features.Config.{FeatureEngineConfig}
use btc_bot.Core.Features.Sweep.{
  SweepReport, or_else, first_some, report, sweep_low, sweep_high, detect_sweep_reclaim,
}

abbrev pub find : {A : Type 0} → (A → Bool) → List A → Option A
find p [] = none
find p (x ∷ xs) = if p x then some x else find p xs

abbrev pub side_of : {A : Type 0} → Option A → Option A → Option SweepSide
side_of (some _) _ = some SweepSide.low
side_of none (some _) = some SweepSide.high
side_of none none = none

module _ {W : Type 0} ⦃d : Double W⦄ (c : FeatureEngineConfig W) (atr : W) (k : Candle W) where
  open d use {add, sub, mul, abs, lt, le}

  -- The candle opens near the level, and reaches beyond it by more than the sweep buffer.
  abbrev opens_near : W → Bool
  opens_near level = not (lt (mul c.sweep_proximity_atr atr) (abs (sub k.opening level)))

  abbrev pub swept_below : W → Bool
  swept_below level = opens_near level && lt k.low (sub level (mul c.sweep_buf_atr atr))

  abbrev pub swept_above : W → Bool
  swept_above level = opens_near level && lt (add level (mul c.sweep_buf_atr atr)) k.high

  -- The candle closes back beyond the level and its buffer, with a wick that is long enough.
  abbrev pub reclaims : Option SweepSide → Option W → Bool
  reclaims (some SweepSide.low) (some level) =
      lt (add level (mul c.reclaim_buf_atr atr)) k.close
      && le (mul c.wick_min_atr atr) (sub (min k.opening k.close) k.low)
  reclaims (some SweepSide.high) (some level) =
      lt k.close (sub level (mul c.reclaim_buf_atr atr))
      && le (mul c.wick_min_atr atr) (sub k.high (max k.opening k.close))
  reclaims _ _ = false

  abbrev Matches : SweepSide → Option (SweepReport W) → Option W → Type 0
  Matches side none none = Unit
  Matches side (some r) (some level) =
      (r.sweep_level ≡ some level)
      × (r.sweep_detected ≡ true)
      × (r.sweep_side ≡ some side)
      × (r.reclaim_detected ≡ reclaims (some side) (some level))
  Matches side _ _ = ⊥

  low_loop :
      (levels : List W)
      → Matches SweepSide.low (first_some (sweep_low c atr k) levels) (find swept_below levels)
  unfolding sweep_low
  low_loop [] = tt
  low_loop (x ∷ xs) =
      elim (Bool-cases (lt (mul c.sweep_proximity_atr atr) (abs (sub k.opening x)))) [
        | inl far ↦ rw far (low_loop xs)
        | inr near ↦ rw near (elim (Bool-cases (lt k.low (sub x (mul c.sweep_buf_atr atr)))) [
          | inl e ↦ rw e (refl, refl, refl, refl)
          | inr e ↦ rw e (low_loop xs)
        ])
      ]

  high_loop :
      (levels : List W)
      → Matches SweepSide.high (first_some (sweep_high c atr k) levels) (find swept_above levels)
  unfolding sweep_high
  high_loop [] = tt
  high_loop (x ∷ xs) =
      elim (Bool-cases (lt (mul c.sweep_proximity_atr atr) (abs (sub k.opening x)))) [
        | inl far ↦ rw far (high_loop xs)
        | inr near ↦ rw near (elim (Bool-cases (lt (add x (mul c.sweep_buf_atr atr)) k.high)) [
          | inl e ↦ rw e (refl, refl, refl, refl)
          | inr e ↦ rw e (high_loop xs)
        ])
      ]

  -- What a report says of the levels that the two searches find.
  abbrev pub Reports : SweepReport W → Option W → Option W → Type 0
  Reports r low high =
      (r.sweep_level ≡ or_else low high)
      × (r.sweep_detected ≡ is_some (or_else low high))
      × (r.sweep_side ≡ side_of low high)
      × (r.reclaim_detected ≡ reclaims r.sweep_side r.sweep_level)

  both_loops :
      (a b : Option (SweepReport W)) (low high : Option W)
      → Matches SweepSide.low a low
      → Matches SweepSide.high b high
      → Reports (report (or_else a b)) low high
  both_loops none none none none m n = (refl, refl, refl, refl)
  both_loops none (some r) none (some l) m n = (n.0, n.1, n.2, rw (n.0, n.2) n.3)
  both_loops (some r) b (some l) high m n = (m.0, m.1, m.2, rw (m.0, m.2) m.3)
  both_loops none b (some l) high m n = absurd m
  both_loops (some r) b none high m n = absurd m
  both_loops none none none (some l) m n = absurd n
  both_loops none (some r) none none m n = absurd n

  -- With two candles or more, the last of which is `k`, and a range above zero: the level that is
  -- reported is the first low that the candle swept, else the first high; a sweep is reported when
  -- there is one, on its side; and a reclaim when the candle closed back beyond that very level
  -- with a long enough wick.
  pub detect_sweep_reclaim-Reports :
      (candles : List (Candle W)) (lows highs : List W)
      → 1 < length candles
      → le atr nought ≡ false
      → last candles ≡ some k
      → Reports
          (detect_sweep_reclaim candles lows highs atr c)
          (find swept_below lows)
          (find swept_above highs)
  unfolding detect_sweep_reclaim
  detect_sweep_reclaim-Reports candles lows highs h e l =
      let two : ltb (length candles) 2 ≡ false = ground arith in
      rw (two, e, l)
        (both_loops (first_some (sweep_low c atr k) lows) (first_some (sweep_high c atr k) highs)
          (find swept_below lows) (find swept_above highs) (low_loop lows) (high_loop highs))
