-- ===== src/Research/Pareto/Order.antt =====
-- Domination is a strict order on trials whose metrics are numbers.
use btc_bot.Prelude.{◌≡◌, true, false, arith}
use btc_bot.Prelude.Double.{Double, IsOrdered, IsNumber}
use btc_bot.Prelude.Order.{lt_irrefl, lt_of_lt_of_le, lt_of_le_of_lt}
use btc_bot.Research.Trials.{TrialEvaluation}
use btc_bot.Research.Pareto.{dominates}

module _ {W : Type 0} ⦃d : Double W⦄ (laws : IsOrdered W) where
  abbrev pub IsMeasured : TrialEvaluation W → Type 0
  IsMeasured t =
      IsNumber t.metrics.expectancy_r
      × IsNumber t.metrics.profit_factor
      × IsNumber t.metrics.max_drawdown_pct

  -- No trial dominates itself, whatever its metrics.
  pub dominates_irrefl : (t : TrialEvaluation W) → dominates t t ≡ false
  unfolding dominates
  dominates_irrefl t = ground (
    arith,
    lt_irrefl laws t.metrics.expectancy_r,
    lt_irrefl laws t.metrics.profit_factor,
    lt_irrefl laws t.metrics.max_drawdown_pct,
  )

  -- Domination is transitive. (A metric that is NaN makes every comparison fail.)
  pub dominates_trans :
      (s t u : TrialEvaluation W)
      → dominates s t ≡ true
      → dominates t u ≡ true
      → dominates s u ≡ true
  unfolding dominates
  dominates_trans s t u h k = ground (
    arith,
    laws.le_trans u.metrics.expectancy_r t.metrics.expectancy_r s.metrics.expectancy_r,
    lt_of_lt_of_le laws u.metrics.expectancy_r t.metrics.expectancy_r s.metrics.expectancy_r,
    lt_of_le_of_lt laws u.metrics.expectancy_r t.metrics.expectancy_r s.metrics.expectancy_r,
    laws.le_trans u.metrics.profit_factor t.metrics.profit_factor s.metrics.profit_factor,
    lt_of_lt_of_le laws u.metrics.profit_factor t.metrics.profit_factor s.metrics.profit_factor,
    lt_of_le_of_lt laws u.metrics.profit_factor t.metrics.profit_factor s.metrics.profit_factor,
    laws.le_trans s.metrics.max_drawdown_pct t.metrics.max_drawdown_pct u.metrics.max_drawdown_pct,
    lt_of_lt_of_le laws s.metrics.max_drawdown_pct t.metrics.max_drawdown_pct
        u.metrics.max_drawdown_pct,
    lt_of_le_of_lt laws s.metrics.max_drawdown_pct t.metrics.max_drawdown_pct
        u.metrics.max_drawdown_pct,
  )
