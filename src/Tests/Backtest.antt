-- ===== src/Tests/Backtest.antt =====
-- Examples for the performance report.
use btc_bot.Prelude.{ℕ, ◌≡◌, ◌⊎◌, refl, some, List, [], ◌∷◌, All}
use btc_bot.Prelude.Double.{IsNumber, nought, ◌≼◌}
use btc_bot.Prelude.Fixed.{ℤ, fixed_double, fixed-IsOrdered}
use btc_bot.Core.Models.{hours}
use btc_bot.Backtest.Performance.{TradeLog, count_losses, max_drawdown_pct, max_consecutive_losses}
use btc_bot.Backtest.Drawdown.{drawdowns, max_drawdown_pct_bounds}
use btc_bot.Tests.Samples.{whole, basis}

abbrev trade : ℕ → ℤ → TradeLog ℤ
trade hour pnl = record {
  trade_id = "t";
  signal_id = "s";
  opened_at = hours 1;
  closed_at = some (hours hour);
  direction = "LONG";
  regime = "normal";
  confluence_score = whole 3;
  entry_price = whole 100;
  exit_price = some (whole 101);
  size = whole 1;
  fees = basis 100;
  slippage_bps = whole 0;
  pnl_abs = pnl;
  pnl_r = pnl;
  mae = whole 0;
  mfe = whole 0;
  exit_reason = some "TP";
  funding_paid = whole 0;
}

abbrev loss : ℤ
loss = fixed_double.neg (whole 5)

abbrev trades : List (TradeLog ℤ)
trades = trade 2 (whole 10) ∷ trade 3 loss ∷ trade 30 (whole 0) ∷ trade 31 loss ∷ []

-- A trade that makes nothing does not end a streak.
two_losses : max_consecutive_losses trades ≡ 2
unfolding max_consecutive_losses count_losses
two_losses = refl

max_drawdown_pct_bounds_example :
    let r = max_drawdown_pct (whole 10 ∷ loss ∷ []) (whole 100) in
    (nought ≼ r)
    × (r ≼ fixed_double.of_nat 1)
    × All
        (λ x. IsNumber x → (x ≼ r) ⊎ (r ≡ fixed_double.of_nat 1))
        (drawdowns fixed-IsOrdered (whole 100) (whole 100) (whole 10 ∷ loss ∷ []))
max_drawdown_pct_bounds_example =
    max_drawdown_pct_bounds fixed-IsOrdered (whole 10 ∷ loss ∷ []) (whole 100) refl
