-- ===== src/Core/Features/Divergence.antt =====
-- The divergences of price and cvd that `FeatureEngine` reports.
use mathlib.Core.Path.{subst}
use btc_bot.Prelude.{
  ◌≡◌, refl, true, false, ◌&&◌, arith, String, Bool, Option, none, some, List, [], ◌∷◌, foldl,
  length, ltb, Bool-cases, inl, inr, if◌then◌else◌,
}
use btc_bot.Prelude.Double.{Double, IsOrdered, IsNumber, nought, ◌≼◌}
use btc_bot.Prelude.Order.{le_of_lt, lt_of_le_of_lt, not_le_of_lt}
use btc_bot.Core.Features.Config.{FeatureEngineConfig}
use btc_bot.Core.Features.Snapshot.{MarketSnapshot}
use btc_bot.Core.Features.History.{
  Histories, higher, lower, diverge, rolling, or_nought, compute_cvd_divergence,
}
use btc_bot.Core.Features.Engine.{compute, compute_oi_stats, record_cvd, is_ready}
use btc_bot.Core.Features.Quality.{cvd_quality}
use btc_bot.Prelude.Tails.{init, last, last_n}
use Prim.Native.Nat.{max as max_nat}

module _ {W : Type 0} ⦃d : Double W⦄ (laws : IsOrdered W) where
  open d use {lt}
  open laws use {num_of_le, num_of_lt, le_trans}

  lower-le : (p : W × W) (ps : List (W × W)) → IsNumber p.0 → (foldl lower p ps).0 ≼ p.0
  lower-le p [] n = n
  lower-le p (q ∷ qs) n = elim (Bool-cases (lt q.0 p.0)) [
    | inl e ↦
        rw (foldl, e)
          (le_trans (foldl lower q qs).0 q.0 p.0 (lower-le q qs (num_of_lt q.0 p.0 e).0)
            (le_of_lt laws q.0 p.0 e))
    | inr e ↦ rw (foldl, e) (lower-le p qs n)
  ]

  higher-ge : (p : W × W) (ps : List (W × W)) → IsNumber p.0 → p.0 ≼ (foldl higher p ps).0
  higher-ge p [] n = n
  higher-ge p (q ∷ qs) n = elim (Bool-cases (lt p.0 q.0)) [
    | inl e ↦
        rw (foldl, e)
          (le_trans p.0 q.0 (foldl higher q qs).0 (le_of_lt laws p.0 q.0 e)
            (higher-ge q qs (num_of_lt p.0 q.0 e).1))
    | inr e ↦ rw (foldl, e) (higher-ge p qs n)
  ]

  lower_num : (p : W × W) (ps : List (W × W)) → IsNumber (foldl lower p ps).0 → IsNumber p.0
  lower_num p [] n = n
  lower_num p (q ∷ qs) n = elim (Bool-cases (lt q.0 p.0)) [
    | inl e ↦ (num_of_lt q.0 p.0 e).1
    | inr e ↦ lower_num p qs (lower_kept p q qs e n)
  ]
    where
      lower_kept :
          (p q : W × W) (qs : List (W × W))
          → lt q.0 p.0 ≡ false
          → IsNumber (foldl lower p (q ∷ qs)).0
          → IsNumber (foldl lower p qs).0
      lower_kept p q qs e n = subst (λ b. IsNumber (foldl lower (if b then q else p) qs).0) e n

  diverge_exclusive :
      (ps : List (W × W)) (current : Option (W × W))
      → ((diverge ps current).0 && (diverge ps current).1) ≡ false
  diverge_exclusive [] current = refl
  diverge_exclusive (p ∷ ps) none = refl
  diverge_exclusive (p ∷ ps) (some x) =
      let low = (foldl lower p ps).0 in
      let high = (foldl higher p ps).0 in
      elim (Bool-cases (lt x.0 low)) [
        | inr e ↦ ground (arith, e)
        | inl e ↦ elim (Bool-cases (lt high x.0)) [
          | inr f ↦ ground (arith, e, f)
          | inl f ↦
              let n = lower_num p ps (num_of_lt x.0 low e).1 in
              let le = le_trans low p.0 high (lower-le p ps n) (higher-ge p ps n) in
              let loop = lt_of_le_of_lt laws low high x.0 le f in
              absurd (cc (not_le_of_lt laws x.0 low e, le_of_lt laws low x.0 loop))
        ]
      ]

  guarded :
      (b : Bool) (r s : Bool × Bool)
      → (r.0 && r.1) ≡ false
      → (s.0 && s.1) ≡ false
      → ((if b then r else s).0 && (if b then r else s).1) ≡ false
  guarded true r s h k = h
  guarded false r s h k = k

  compute_cvd_divergence_exclusive :
      (c : FeatureEngineConfig W) (h : Histories W)
      → ((compute_cvd_divergence c h).0 && (compute_cvd_divergence c h).1) ≡ false
  unfolding compute_cvd_divergence
  compute_cvd_divergence_exclusive c h =
      let window = max_nat c.cvd_divergence_window_bars 3 in
      let pairs = rolling nought (last_n window h.cvd_price_history) in
      guarded (ltb (length h.cvd_price_history) window) (false, false)
        (diverge (init pairs) (last pairs)) refl (diverge_exclusive (init pairs) (last pairs))

  -- The features of a snapshot never show a bullish and a bearish divergence at once.
  compute_exclusive :
      (c : FeatureEngineConfig W) (h : Histories W) (s : MarketSnapshot W)
      (schema_version config_hash : String)
      → let f = (compute c h s schema_version config_hash).0 in
        (f.cvd_bullish_divergence && f.cvd_bearish_divergence) ≡ false
  unfolding compute
  compute_exclusive c h s _ _ =
      let h' =
        record_cvd s.timestamp s.price (or_nought s.aggtrades_bucket_15m.cvd)
          (compute_oi_stats c s.open_interest s.timestamp h).1 in
      guarded (is_ready (cvd_quality c h').status) (compute_cvd_divergence c h') (false, false)
        (compute_cvd_divergence_exclusive c h') refl
