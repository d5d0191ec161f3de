-- ===== src/Core/Context/Eligibility.antt =====
-- `ContextEngine`: sessions by the hour, volatility by the thresholds, and eligibility.
use btc_bot.Prelude.{
  ℕ, ◌≤◌, ◌<◌, ◌≡◌, true, false, ◌↔◌, ◌⊎◌, arith, none, some, List, [], ◌∷◌, any, Some,
}
use btc_bot.Prelude.Double.{Double, IsOrdered, ◌≼◌}
use btc_bot.Core.Models.{Time, hour_of, Features, SessionBucket, VolatilityBucket, ContextBlock}
use btc_bot.Core.Context.{
  ContextConfig, classify, classify_session, classify_volatility, same_volatility, allowed_in,
}

-- The four sessions divide the day: Asia from 22 to 7, Europe from 7 to 14, the overlap from 14 to
-- 16, and the US from 16 to 22, each without its last hour.
classify_session_iff :
    (t : Time)
    → let h = hour_of t in
      ((classify_session t ≡ SessionBucket.asia) ↔ ((h < 7) ⊎ (22 ≤ h)))
      × ((classify_session t ≡ SessionBucket.eu) ↔ ((7 ≤ h) × (h < 14)))
      × ((classify_session t ≡ SessionBucket.eu_us) ↔ ((14 ≤ h) × (h < 16)))
      × ((classify_session t ≡ SessionBucket.us) ↔ ((16 ≤ h) × (h < 22)))
unfolding classify_session
classify_session_iff t = (ground arith, ground arith, ground arith, ground arith)

abbrev rank : VolatilityBucket → ℕ
rank VolatilityBucket.low = 0
rank VolatilityBucket.normal = 1
rank VolatilityBucket.high = 2

any_same_iff :
    (v : VolatilityBucket) (vs : List VolatilityBucket)
    → (any (same_volatility v) vs ≡ true) ↔ Some (λ w. v ≡ w) vs
any_same_iff v [] = (λ e. cc, λ e. absurd e)
any_same_iff v (w ∷ vs) =
    let rest = any_same_iff v vs in (λ e. ground (arith, rest), λ e. ground (arith, rest))

module _ {W : Type 0} ⦃d : Double W⦄ (c : ContextConfig W) where
  -- A higher volatility never falls into a lower bucket, if the thresholds are in order.
  classify_volatility_mono :
      (laws : IsOrdered W) (x y : W)
      → c.atr_low_threshold ≼ c.atr_high_threshold
      → x ≼ y
      → rank (classify_volatility c x) ≤ rank (classify_volatility c y)
  unfolding classify_volatility
  classify_volatility_mono laws x y h k =
      let nx = laws.num_of_le x y k in
      let nt = laws.num_of_le _ _ h in
      ground (
        arith,
        laws.lt-eq-not-le x c.atr_low_threshold nx.0 nt.0,
        laws.lt-eq-not-le y c.atr_low_threshold nx.1 nt.0,
        laws.lt-eq-not-le c.atr_high_threshold x nt.1 nx.0,
        laws.lt-eq-not-le c.atr_high_threshold y nt.1 nx.1,
        laws.le_trans c.atr_low_threshold x y,
        laws.le_total c.atr_low_threshold x nt.0 nx.0,
        laws.le_total x c.atr_high_threshold nx.0 nt.1,
        laws.le_trans x y c.atr_high_threshold k,
        laws.le_trans x y c.atr_low_threshold k,
      )

  -- A context is eligible exactly in neutral mode or where the whitelist of the session has the
  -- volatility; the block reason is there exactly if it is not eligible, and names the two buckets.
  classify_eligible_iff :
      (f : Features W)
      → let m = classify c f in
        let allowed = allowed_in (c.session_volatility_whitelist (classify_session f.timestamp)) in
        ((m.context_eligible ≡ true)
          ↔ ((c.neutral_mode ≡ true) ⊎ Some (λ w. classify_volatility c f.atr_4h_norm ≡ w) allowed))
        × ((m.context_eligible ≡ true) ↔ (m.context_block_reason ≡ none))
        × ((m.context_eligible ≡ false) ↔ (
            m.context_block_reason
            ≡ some (
                ContextBlock.context_unfavorable
                  (classify_session f.timestamp)
                  (classify_volatility c f.atr_4h_norm))))
  unfolding classify
  classify_eligible_iff f =
      let listed =
        any_same_iff (classify_volatility c f.atr_4h_norm)
          (allowed_in (c.session_volatility_whitelist (classify_session f.timestamp))) in
      ((λ e. ground (arith, listed.0), λ e. ground (arith, listed.1)), ground arith, ground arith)
