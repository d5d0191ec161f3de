-- ===== src/Core/Signal/Weights.antt =====
-- The confluence score is accounted for by its reasons.
use mathlib.Core.Path.{ap₂}
use btc_bot.Prelude.{◌≡◌, refl, true, false, List, [], ◌∷◌, ◌++◌, foldl, map, All}
use btc_bot.Prelude.Double.{Double, nought}
use btc_bot.Core.Models.{Direction, RegimeState, Features, SignalReason}
use btc_bot.Core.Signal.Config.{SignalConfig}
use btc_bot.Core.Signal.Score.{Test, tests, apply_test, confluence_score}

module _ {W : Type 0} ⦃d : Double W⦄ where
  open d use {add}

  -- The weight that the config gives a reason; the entry of a pullback has none.
  abbrev pub weight_of : SignalConfig W → SignalReason → W
  weight_of c SignalReason.uptrend_pullback_entry = nought
  weight_of c SignalReason.liquidity_sweep_detected = c.weight_sweep_detected
  weight_of c SignalReason.reclaim_confirmed = c.weight_reclaim_confirmed
  weight_of c SignalReason.cvd_bullish_divergence = c.weight_cvd_divergence
  weight_of c SignalReason.cvd_bearish_divergence = c.weight_cvd_divergence
  weight_of c SignalReason.tfi_impulse = c.weight_tfi_impulse
  weight_of c SignalReason.force_order_spike = c.weight_force_order_spike
  weight_of c SignalReason.regime_special = c.weight_regime_special
  weight_of c SignalReason.ema_trend_alignment = c.weight_ema_trend_alignment
  weight_of c SignalReason.funding_supportive = c.weight_funding_supportive

  abbrev pub sum_weights : SignalConfig W → List SignalReason → W
  sum_weights c reasons = foldl add nought (map (weight_of c) reasons)

  abbrev HasWeight : SignalConfig W → Test W → Type 0
  HasWeight c (passed, weight, reason) = weight ≡ weight_of c reason

  sum_weights-snoc :
      (c : SignalConfig W) (acc : W) (rs : List SignalReason) (r : SignalReason)
      → foldl add acc (map (weight_of c) (rs ++ (r ∷ [])))
        ≡ add (foldl add acc (map (weight_of c) rs)) (weight_of c r)
  sum_weights-snoc c acc [] r = refl
  sum_weights-snoc c acc (x ∷ rs) r = sum_weights-snoc c (add acc (weight_of c x)) rs r

  score_of_reasons :
      (c : SignalConfig W) (ts : List (Test W)) (score : W) (reasons : List SignalReason)
      → All (HasWeight c) ts
      → score ≡ sum_weights c reasons
      → let (total, found) = foldl apply_test (score, reasons) ts in total ≡ sum_weights c found
  score_of_reasons c [] score reasons h e = e
  score_of_reasons c ((true, w, r) ∷ ts) score reasons h e =
      score_of_reasons c ts (add score w) (reasons ++ (r ∷ [])) h.1
        (rw (sum_weights-snoc c nought reasons r) (ap₂ add e h.0))
  score_of_reasons c ((false, w, r) ∷ ts) score reasons h e =
      score_of_reasons c ts score reasons h.1 e

  -- The score is the sum of the weights of the reported reasons, added in their order.
  confluence_score-eq-sum :
      (c : SignalConfig W) (f : Features W) (regime : RegimeState) (direction : Direction)
      → let (score, reasons) = confluence_score c f regime direction in
        score ≡ sum_weights c reasons
  unfolding confluence_score
  confluence_score-eq-sum c f regime direction =
      score_of_reasons c (tests c f regime direction) nought []
        (
          refl,
          (
            refl,
            (refl, (refl, (refl, (refl, (refl, (refl, (refl, (refl, (refl, (refl, tt)))))))))),
          ),
        )
        refl
