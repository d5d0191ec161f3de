-- ===== src/Core/Context.antt =====
-- core/context_engine.py: `ContextEngine`, with the `ContextConfig` of settings.py. A naive
-- timestamp is read as UTC, so every timestamp is an instant.
pub mod Eligibility
use btc_bot.Prelude.{
  ℕ, String, Bool, true, false, ◌&&◌, ◌||◌, Option, none, some, List, [], ◌∷◌, ltb, leb, any,
  if◌then◌else◌,
}
use btc_bot.Prelude.Double.{Double}
use btc_bot.Core.Models.{
  Time, hour_of, Features, MarketContext, SessionBucket, VolatilityBucket, ContextBlock,
}

pub record ContextConfig (W : Type 0) : Type 0 where
  pub atr_low_threshold : W
  pub atr_high_threshold : W
  pub session_volatility_whitelist : SessionBucket → Option (List VolatilityBucket)
  pub neutral_mode : Bool
  pub policy_version : String

unfoldable pub classify_session : Time → SessionBucket
classify_session timestamp =
    let h = hour_of timestamp in
    if leb 22 h || ltb h 7
    then SessionBucket.asia
    else if leb 7 h && ltb h 14
    then SessionBucket.eu
    else if leb 14 h && ltb h 16
    then SessionBucket.eu_us
    else SessionBucket.us

abbrev pub same_volatility : VolatilityBucket → VolatilityBucket → Bool
same_volatility VolatilityBucket.low VolatilityBucket.low = true
same_volatility VolatilityBucket.normal VolatilityBucket.normal = true
same_volatility VolatilityBucket.high VolatilityBucket.high = true
same_volatility _ _ = false

-- `.get(session, ())`
abbrev pub allowed_in : Option (List VolatilityBucket) → List VolatilityBucket
allowed_in none = []
allowed_in (some vs) = vs

module _ {W : Type 0} ⦃d : Double W⦄ where
  open d use {lt}

  unfoldable pub classify_volatility : ContextConfig W → W → VolatilityBucket
  classify_volatility c atr_norm =
      if lt atr_norm c.atr_low_threshold
      then VolatilityBucket.low
      else if lt c.atr_high_threshold atr_norm
      then VolatilityBucket.high
      else VolatilityBucket.normal

  unfoldable pub classify : ContextConfig W → Features W → MarketContext
  classify c f =
      let session = classify_session f.timestamp in
      let volatility = classify_volatility c f.atr_4h_norm in
      let allowed = allowed_in (c.session_volatility_whitelist session) in
      let eligible = any (same_volatility volatility) allowed in
      if c.neutral_mode
      then record {
        session_bucket = session;
        volatility_bucket = volatility;
        context_eligible = true;
        context_block_reason = none;
        context_policy_version = c.policy_version;
        neutral_mode_active = true;
        quality_flags = [];
      }
      else record {
        session_bucket = session;
        volatility_bucket = volatility;
        context_eligible = eligible;
        context_block_reason =
            (if eligible then none else some (ContextBlock.context_unfavorable session volatility));
        context_policy_version = c.policy_version;
        neutral_mode_active = false;
        quality_flags = [];
      }
