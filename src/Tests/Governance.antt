-- ===== src/Tests/Governance.antt =====
-- Examples for `GovernanceLayer`.
use btc_bot.Prelude.{◌≡◌, refl, ◌↔◌, true, [], ◌∷◌, arith}
use btc_bot.Prelude.Fixed.{ℤ, fixed_double, fixed-IsOrdered}
use btc_bot.Core.Models.{hours}
use btc_bot.Core.Governance.{Levels, evaluate, is_near}
use btc_bot.Core.Governance.Window.{IsSound, IsPast}
use btc_bot.Core.Governance.Gates.{IsAdmissible, evaluate_approves_iff, evaluate-IsSound}
use btc_bot.Tests.Samples.{whole, governance_config, governance_state, candidate}

abbrev levels : Levels ℤ
levels = (hours 1, whole 59_000) ∷ (hours 9, whole 61_000) ∷ []

levels-IsSound : IsSound governance_config levels
unfolding is_near
levels-IsSound = record {
  chronological = omega arith;
  spaced = (((λ _. refl), tt), (tt, tt));
  bounded = omega arith;
}

evaluate_approves_iff_example :
    ((evaluate governance_config governance_state candidate levels).0.approved ≡ true)
    ↔ IsAdmissible governance_config governance_state candidate levels
evaluate_approves_iff_example =
    evaluate_approves_iff fixed-IsOrdered governance_config governance_state candidate levels refl
      refl refl refl (omega arith)

evaluate-IsSound_example :
    IsSound governance_config (evaluate governance_config governance_state candidate levels).1
    × IsPast (hours 10) (evaluate governance_config governance_state candidate levels).1
evaluate-IsSound_example =
    evaluate-IsSound governance_config governance_state candidate levels levels-IsSound
      (omega arith)
