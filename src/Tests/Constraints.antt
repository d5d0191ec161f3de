-- ===== src/Tests/Constraints.antt =====
-- Examples for the constraints on parameters.
use btc_bot.Prelude.{◌≡◌, ◌↔◌, refl, true, none, some, [], ◌∷◌}
use btc_bot.Prelude.Fixed.{ℤ, fixed_double}
use btc_bot.Research.Constraints.{
  Params, Violation, Validity, checks, collect_violations, validate_param_vector, assert_valid,
}
use btc_bot.Research.Constraints.Valid.{IsValid, validate_param_vector_iff}
use btc_bot.Tests.Samples.{whole, basis}

abbrev params : Params ℤ
params = record {
  ema_fast = some 50;
  ema_slow = some 200;
  tp1_atr_mult = some (whole 2);
  tp2_atr_mult = some (whole 4);
  invalidation_offset_atr = some (basis 7_500);
  min_rr = some (whole 2);
  risk_per_trade_pct = some (basis 100);
  max_leverage = some 5;
  high_vol_leverage = some 8;
  partial_exit_pct = none;
  session_start_hour_utc = some 0;
  session_end_hour_utc = some 23;
  allow_long_in_uptrend = some true;
  allow_uptrend_continuation = none;
  uptrend_continuation_reclaim_strength_min = none;
  uptrend_continuation_participation_min = none;
  uptrend_continuation_confluence_multiplier = none;
  direction_tfi_threshold = some (basis 500);
  signal_weights = some (whole 1) ∷ none ∷ [];
}

validate_param_vector_iff_example :
    ((validate_param_vector params ≡ []) ↔ IsValid params)
    × ((assert_valid params ≡ Validity.valid) ↔ IsValid params)
validate_param_vector_iff_example = validate_param_vector_iff params

-- The leverage for a wide stop exceeds the maximum.
one_violation : validate_param_vector params ≡ Violation.high_vol_leverage ∷ []
unfolding validate_param_vector checks collect_violations
one_violation = refl
