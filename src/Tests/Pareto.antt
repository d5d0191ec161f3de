-- ===== src/Tests/Pareto.antt =====
-- Examples for the Pareto frontier.
use btc_bot.Prelude.{
  ℕ, ◌≡◌, refl, ◌⊎◌, true, not, none, some, [], ◌∷◌, List, Some, keep, inl, String,
}
use btc_bot.Prelude.Fixed.{ℤ, fixed_double, fixed-IsOrdered}
use btc_bot.Research.Trials.{TrialEvaluation}
use btc_bot.Research.Pareto.{accepted, dominates, compute_pareto_frontier}
use btc_bot.Research.Pareto.Frontier.{beaten, frontier-eq-keep, frontier_covers}
use btc_bot.Tests.Samples.{whole}

abbrev pub trial : String → ℕ → ℕ → ℕ → TrialEvaluation ℤ
trial name e p m = record {
  trial_id = name;
  metrics = record {
    expectancy_r = whole e;
    profit_factor = whole p;
    max_drawdown_pct = whole m;
    trades_count = 30;
    sharpe_ratio = whole 1;
    pnl_abs = whole 1;
    win_rate = whole 1;
  };
  funnel = record {
    signals_generated = 40;
    signals_regime_blocked = 5;
    signals_governance_rejected = 4;
    signals_risk_rejected = 1;
    signals_executed = 30;
  };
  rejected_reason = none;
}

abbrev trials : List (TrialEvaluation ℤ)
trials =
    trial "a" 1 2 5
    ∷ trial "b" 2 2 5
    ∷ trial "c" 1 3 5
    ∷ record (trial "d" 9 9 1) { rejected_reason = some "min_trades" }
    ∷ []

frontier_run : compute_pareto_frontier trials ≡ trial "b" 2 2 5 ∷ trial "c" 1 3 5 ∷ []
unfolding compute_pareto_frontier
frontier_run = refl

frontier-eq-keep_example :
    compute_pareto_frontier trials ≡ keep (λ t. not (beaten (accepted trials) t)) (accepted trials)
frontier-eq-keep_example = frontier-eq-keep fixed-IsOrdered trials

frontier_covers_example :
    Some
      (λ m. (m ≡ trial "a" 1 2 5) ⊎ (dominates m (trial "a" 1 2 5) ≡ true))
      (compute_pareto_frontier trials)
unfolding accepted
frontier_covers_example = frontier_covers fixed-IsOrdered trials (trial "a" 1 2 5) (inl refl)
