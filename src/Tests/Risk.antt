-- ===== src/Tests/Risk.antt =====
-- Examples for `RiskEngine`.
use btc_bot.Prelude.{◌≡◌, ◌≤◌, refl, ◌↔◌, true, false, none, inl, inr}
use btc_bot.Prelude.Double.{◌≼◌, ◌≺◌, nought}
use btc_bot.Prelude.Fixed.{fixed_double, fixed-IsOrdered, fixed-IsRounded}
use btc_bot.Core.Models.{hours, ExitReason}
use btc_bot.Core.Risk.{
  evaluate, evaluate_exit, compute_pnl_abs, build_settlement_metrics, position_size, close_at,
}
use btc_bot.Core.Risk.Sizing.{
  IsAllowed, IsNumeric, IsWide, size_by_risk, size_by_leverage, evaluate_allows_iff,
  evaluate_bounds,
}
use btc_bot.Core.Risk.Exit.{ExitRule, evaluate_exit_iff}
use btc_bot.Core.Risk.Settlement.{settlement_bounds}
use btc_bot.Core.Risk.Mirror.{mirror, mirror_exit, exit_mirror}
use btc_bot.Tests.Samples.{whole, risk_config, risk_state, signal, position, candles}

numeric : IsNumeric risk_config risk_state signal (whole 10_000)
unfolding position_size
numeric = record {
  equity_num = refl;
  rr_num = refl;
  min_rr_num = refl;
  daily_num = refl;
  daily_limit_num = refl;
  weekly_num = refl;
  weekly_limit_num = refl;
  stop_num = refl;
  size_num = refl;
}

evaluate_allows_iff_example :
    ((evaluate risk_config risk_state signal (whole 10_000) 1).allowed ≡ true)
    ↔ IsAllowed risk_config risk_state signal (whole 10_000) 1
evaluate_allows_iff_example =
    evaluate_allows_iff fixed-IsOrdered risk_config risk_state signal (whole 10_000) 1 numeric

evaluate_bounds_example :
    let r = evaluate risk_config risk_state signal (whole 10_000) 1 in
    (nought ≺ r.size)
    × (r.size ≼ size_by_risk risk_config signal (whole 10_000))
    × (r.size ≼ size_by_leverage signal (whole 10_000) r.leverage)
    × (r.leverage ≤ 5)
    × (IsWide risk_config signal → r.leverage ≤ 3)
    × (r.reason ≡ none)
unfolding evaluate position_size
evaluate_bounds_example =
    evaluate_bounds fixed-IsOrdered risk_config risk_state signal (whole 10_000) 1 refl refl refl

-- A candle that reaches both the stop and the target closes at the stop.
evaluate_exit_iff_example :
    ExitRule risk_config position
      (hours 11)
      (whole 60_400)
      (whole 59_800)
      (whole 60_000)
      true
      false
      (close_at ExitReason.sl (whole 59_900))
    ↔ (evaluate_exit risk_config position
          (hours 11)
          (whole 60_400)
          (whole 59_800)
          (whole 60_000)
          true
          false
        ≡ close_at ExitReason.sl (whole 59_900))
evaluate_exit_iff_example =
    evaluate_exit_iff risk_config position (hours 11) (whole 60_400) (whole 59_800) (whole 60_000)
      true false (close_at ExitReason.sl (whole 59_900))

stop_before_target :
    evaluate_exit risk_config position
      (hours 11)
      (whole 60_400)
      (whole 59_800)
      (whole 60_000)
      true
      false
    ≡ close_at ExitReason.sl (whole 59_900)
unfolding evaluate_exit
stop_before_target = refl

settlement_bounds_example :
    let m = build_settlement_metrics position (whole 60_300) ExitReason.tp candles in
    (nought ≼ m.mae) × (nought ≼ m.mfe) × (fixed_double.neg m.mae ≼ m.pnl_abs) × (m.pnl_abs ≼ m.mfe)
unfolding compute_pnl_abs
settlement_bounds_example =
    settlement_bounds fixed-IsOrdered fixed-IsRounded position (whole 60_300) ExitReason.tp candles
      refl ((refl, refl), ((refl, refl), tt)) (inr (inl (refl, refl))) (refl, refl, refl)

exit_mirror_example :
    (evaluate_exit risk_config
        (mirror position)
        (hours 11)
        (fixed_double.neg (whole 59_950))
        (fixed_double.neg (whole 60_400))
        (fixed_double.neg (whole 60_350))
        true
        false
      ≡ mirror_exit (
          evaluate_exit risk_config position
            (hours 11)
            (whole 60_400)
            (whole 59_950)
            (whole 60_350)
            true
            false))
    × (compute_pnl_abs (mirror position) (fixed_double.neg (whole 60_300))
        ≡ compute_pnl_abs position (whole 60_300))
exit_mirror_example =
    exit_mirror fixed-IsRounded risk_config position (hours 11) (whole 60_400) (whole 59_950)
      (whole 60_350) (whole 60_300) true false
