-- ===== src/Backtest/Performance.antt =====
-- backtest/performance.py: `summarize`. A closing time counts by its day. `sum` adds from the left,
-- a square is a product and a power of 0.5 a square root.
use btc_bot.Prelude.{
  ℕ, suc, ◌-◌, ◌/◌, String, Bool, Option, none, some, List, [], ◌∷◌, map, foldl, keep, length, ltb,
  ◌==◌, if◌then◌else◌, is_some,
}
use Prim.Native.Nat.{max as max_nat}
use btc_bot.Prelude.Double.{Double, nought, max, min}
use btc_bot.Prelude.Sorting.{sort, before}
use btc_bot.Core.Models.{Time, hours}

-- core/models.py: `TradeLog`, without the JSON of its features.
pub record TradeLog (W : Type 0) : Type 0 where
  pub trade_id : String
  pub signal_id : String
  pub opened_at : Time
  pub closed_at : Option Time
  pub direction : String
  pub regime : String
  pub confluence_score : W
  pub entry_price : W
  pub exit_price : Option W
  pub size : W
  pub fees : W
  pub slippage_bps : W
  pub pnl_abs : W
  pub pnl_r : W
  pub mae : W
  pub mfe : W
  pub exit_reason : Option String
  pub funding_paid : W

-- A ratio that may be `float("inf")`
pub data ProfitFactor (W : Type 0) : Type 0 where
  infinite : ProfitFactor W
  finite : W → ProfitFactor W

pub record PerformanceReport (W : Type 0) : Type 0 where
  pub trades_count : ℕ
  pub expectancy_r : W
  pub pnl_abs : W
  pub pnl_r_sum : W
  pub max_drawdown_pct : W
  pub win_rate : W
  pub avg_winner_r : W
  pub avg_loser_r : W
  pub profit_factor : ProfitFactor W
  pub max_consecutive_losses : ℕ
  pub sharpe_ratio : W
  pub total_fees : W

abbrev day_of : Time → ℕ
day_of t = t / hours 24

module _ {W : Type 0} where
  abbrev pub is_closed : TradeLog W → Bool
  is_closed t = is_some t.closed_at

  -- `trade.closed_at or trade.opened_at`
  abbrev pub settled_at : TradeLog W → Time
  settled_at t = elim t.closed_at [ none ↦ t.opened_at | some at ↦ at ]

module _ {W : Type 0} ⦃d : Double W⦄ where
  open d use {add, sub, mul, div, sqrt, abs, lt, eq, of_nat, lit}

  abbrev total : List W → W
  total = foldl add nought

  -- the loop, with the current streak and the longest so far
  unfoldable pub count_losses : ℕ → ℕ → List (TradeLog W) → ℕ
  count_losses current longest [] = longest
  count_losses current longest (t ∷ ts) =
      let loss = lt t.pnl_abs nought in
      let next = if loss then suc current else if lt nought t.pnl_abs then 0 else current in
      let best = if loss then (if ltb longest next then next else longest) else longest in
      count_losses next best ts

  unfoldable pub max_consecutive_losses : List (TradeLog W) → ℕ
  unfolding count_losses
  max_consecutive_losses = count_losses 0 0

  -- one turn of the loop: the equity and its peak after a trade, and the drawdown from that peak
  abbrev pub peak_after : W → W → W
  peak_after peak equity = if lt peak equity then equity else peak

  abbrev pub drawdown_at : W → W → W
  drawdown_at peak equity = div (sub peak equity) (max peak (lit 1 8))

  unfoldable pub drawdown_loop : W → W → W → List W → W
  drawdown_loop peak equity max_dd [] = max_dd
  drawdown_loop peak equity max_dd (pnl ∷ pnls) =
      let equity' = add equity pnl in
      let peak' = peak_after peak equity' in
      let drawdown = drawdown_at peak' equity' in
      drawdown_loop peak' equity' (if lt max_dd drawdown then drawdown else max_dd) pnls

  unfoldable pub max_drawdown_pct : List W → W → W
  unfolding drawdown_loop
  max_drawdown_pct pnl_values initial_equity =
      min (max (drawdown_loop initial_equity initial_equity nought pnl_values) nought) (of_nat 1)

  -- `daily_pnl[day] = daily_pnl.get(day, 0.0) + pnl`, with the days in the order they came
  unfoldable pub add_daily : ℕ → W → List (ℕ × W) → List (ℕ × W)
  add_daily day pnl [] = (day, add nought pnl) ∷ []
  add_daily day pnl (x ∷ xs) =
      if x.0 == day then (day, add x.1 pnl) ∷ xs else x ∷ add_daily day pnl xs

  abbrev count_trade : List (ℕ × W) → TradeLog W → List (ℕ × W)
  count_trade daily t = elim t.closed_at [
    | none ↦ daily
    | some at ↦ add_daily (day_of at) t.pnl_abs daily
  ]

  abbrev daily_returns : W → List (ℕ × W) → List W
  daily_returns equity [] = []
  daily_returns equity (x ∷ xs) = div x.1 (max equity (lit 1 8)) ∷ daily_returns (add equity x.1) xs

  unfoldable pub daily_sharpe_ratio : List (TradeLog W) → W → W
  unfolding add_daily sort
  daily_sharpe_ratio trades initial_equity =
      let daily_pnl = foldl count_trade [] trades in
      let returns = daily_returns initial_equity (sort (before (λ x. x.0)) daily_pnl) in
      let n = length returns in
      let avg = div (total returns) (of_nat n) in
      let variance =
        div (total (map (λ v. mul (sub v avg) (sub v avg)) returns)) (of_nat (max_nat (n - 1) 1)) in
      let stdev = sqrt variance in
      if ltb (length daily_pnl) 2
      then nought
      else if ltb n 2
      then nought
      else if eq stdev nought
      then nought
      else mul (div avg stdev) (sqrt (of_nat 365))

  abbrev average : List W → W
  average [] = nought
  average (v ∷ vs) = div (total (v ∷ vs)) (of_nat (length (v ∷ vs)))

  abbrev empty_report : PerformanceReport W
  empty_report = record {
    trades_count = 0;
    expectancy_r = nought;
    pnl_abs = nought;
    pnl_r_sum = nought;
    max_drawdown_pct = nought;
    win_rate = nought;
    avg_winner_r = nought;
    avg_loser_r = nought;
    profit_factor = ProfitFactor.finite nought;
    max_consecutive_losses = 0;
    sharpe_ratio = nought;
    total_fees = nought;
  }

  -- the report on the closed trades in order
  abbrev report : List (TradeLog W) → W → PerformanceReport W
  report [] initial_equity = empty_report
  report (t ∷ ts) initial_equity =
      let ordered = t ∷ ts in
      let count = length ordered in
      let pnl_values = map (λ x. x.pnl_abs) ordered in
      let pnl_r_sum = total (map (λ x. x.pnl_r) ordered) in
      let wins = keep (λ x. lt nought x.pnl_abs) ordered in
      let losses = keep (λ x. lt x.pnl_abs nought) ordered in
      let winning_r = map (λ x. x.pnl_r) (keep (λ x. lt nought x.pnl_r) wins) in
      let losing_r = map (λ x. x.pnl_r) (keep (λ x. lt x.pnl_r nought) losses) in
      let gross_profit = total (map (λ x. x.pnl_abs) wins) in
      let gross_loss_abs = abs (total (map (λ x. x.pnl_abs) losses)) in
      let equity = max initial_equity (lit 1 8) in
      record {
        trades_count = count;
        expectancy_r = div pnl_r_sum (of_nat count);
        pnl_abs = total pnl_values;
        pnl_r_sum = pnl_r_sum;
        max_drawdown_pct = max_drawdown_pct pnl_values equity;
        win_rate = div (of_nat (length wins)) (of_nat count);
        avg_winner_r = average winning_r;
        avg_loser_r = average losing_r;
        profit_factor =
            if eq gross_loss_abs nought
            then (if lt nought gross_profit
                then ProfitFactor.infinite
                else ProfitFactor.finite nought)
            else ProfitFactor.finite (div gross_profit gross_loss_abs);
        max_consecutive_losses = max_consecutive_losses ordered;
        sharpe_ratio = daily_sharpe_ratio ordered equity;
        total_fees = total (map (λ x. x.fees) ordered);
      }

  unfoldable pub summarize : List (TradeLog W) → W → PerformanceReport W
  unfolding max_drawdown_pct max_consecutive_losses daily_sharpe_ratio sort
  summarize trades initial_equity =
      report (sort (before settled_at) (keep is_closed trades)) initial_equity
