-- ===== src/Tests/Signal.antt =====
-- Examples for `SignalEngine`.
use btc_bot.Prelude.{◌≡◌, refl, none}
use btc_bot.Prelude.Fixed.{ℤ, fixed_double, fixed-IsOrdered, fixed-IsRounded}
use btc_bot.Core.Models.{Direction, RegimeState, SignalCandidate}
use btc_bot.Core.Signal.Score.{
  confluence_score, build_levels, is_direction_allowed, is_uptrend_pullback_context,
  is_regime_special_supportive, infer_direction,
}
use btc_bot.Core.Signal.Diagnose.{
  generate, generate_from, diagnose, judge, judge_sweep, weigh, is_shallow, candidate_of,
}
use btc_bot.Core.Signal.Candidates.{Facts, generate_passes}
use btc_bot.Core.Signal.Geometry.{InOrder, IsSane, IsComputed, build_levels-InOrder}
use btc_bot.Tests.Samples.{basis, signal_config, features}

abbrev found : SignalCandidate ℤ
found =
    candidate_of signal_config "sig-1" features RegimeState.normal
      (diagnose signal_config features RegimeState.normal none) Direction.long (basis 39_500)

generate_passes_example : Facts signal_config features RegimeState.normal "sig-1" none found
unfolding generate generate_from diagnose judge judge_sweep weigh is_shallow infer_direction
    is_uptrend_pullback_context is_direction_allowed confluence_score is_regime_special_supportive
generate_passes_example =
    generate_passes signal_config features RegimeState.normal "sig-1" none found refl

-- The default whitelist allows nothing in an uptrend.
no_candidate_in_uptrend :
    generate signal_config "sig-1" features RegimeState.uptrend none none ≡ none
unfolding generate generate_from diagnose judge judge_sweep weigh is_shallow infer_direction
    is_uptrend_pullback_context is_direction_allowed confluence_score is_regime_special_supportive
no_candidate_in_uptrend = refl

sane : IsSane signal_config
sane = record { tp1_nonneg = refl; tp2_further = refl }

computed : IsComputed signal_config features (build_levels signal_config features Direction.long)
unfolding build_levels
computed = record {
  atr_num = refl;
  tiny_pos = refl;
  invalidation_num = refl;
  tp1_num = refl;
  tp2_num = refl;
}

build_levels-InOrder_example :
    InOrder Direction.long (build_levels signal_config features Direction.long)
build_levels-InOrder_example =
    build_levels-InOrder fixed-IsOrdered fixed-IsRounded signal_config features Direction.long sane
      computed
