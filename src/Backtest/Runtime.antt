-- ===== src/Backtest/Runtime.antt =====
-- backtest/backtest_runner.py, `_compute_runtime_state`: what the governance and the risk engine read
-- in a replay. A day of a time is its number since 1970, and a week starts on a Monday.
use Prim.Native.Nat.{max as max_nat}
use btc_bot.Prelude.{
  ℕ, suc, ◌+◌, ◌-◌, ◌*◌, not, ◌&&◌, Option, none, some, List, [], ◌∷◌, ◌++◌, map, keep, foldl,
  length, ltb, leb, is_some, if◌then◌else◌,
}
use btc_bot.Prelude.Double.{Double, nought, max, min}
use btc_bot.Prelude.Sorting.{sort, before}
use btc_bot.Core.Models.{Time, hours, GovernanceRuntimeState, RiskRuntimeState}
use btc_bot.Storage.Runtime.{day_start, weekday, period_loop}
use btc_bot.Storage.Queries.{date_of, is_same_day}
use btc_bot.Backtest.Positions.{ClosedTradeRecord}

-- `_RuntimeState`
pub record RuntimeState (W : Type 0) : Type 0 where
  pub now : Time
  pub trades_today : ℕ
  pub consecutive_losses : ℕ
  pub daily_dd_pct : W
  pub weekly_dd_pct : W
  pub last_trade_at : Option Time
  pub last_loss_at : Option Time

-- `max(times)`, if there are any
abbrev pub latest : List Time → Option Time
latest [] = none
latest (t ∷ ts) = some (foldl max_nat t ts)

-- `reversed(xs)`
abbrev pub backwards : {A : Type 0} → List A → List A
backwards [] = []
backwards (x ∷ xs) = backwards xs ++ (x ∷ [])

abbrev pub times_of : List (Option Time) → List Time
times_of [] = []
times_of (none ∷ ts) = times_of ts
times_of (some t ∷ ts) = t ∷ times_of ts

module _ {W : Type 0} where
  abbrev pub governance_state : RuntimeState W → GovernanceRuntimeState W
  governance_state s = record {
    trades_today = s.trades_today;
    consecutive_losses = s.consecutive_losses;
    daily_dd_pct = s.daily_dd_pct;
    weekly_dd_pct = s.weekly_dd_pct;
    last_trade_at = s.last_trade_at;
    last_loss_at = s.last_loss_at;
  }

  abbrev pub risk_state : RuntimeState W → RiskRuntimeState W
  risk_state s = record {
    consecutive_losses = s.consecutive_losses;
    daily_dd_pct = s.daily_dd_pct;
    weekly_dd_pct = s.weekly_dd_pct;
  }

module _ {W : Type 0} ⦃d : Double W⦄ where
  open d use {add, lt, lit, of_nat}

  -- the loop of `_consecutive_losses`, from the newest record
  unfoldable pub losses_back : ℕ → List (ClosedTradeRecord W) → ℕ
  losses_back today [] = 0
  losses_back today (r ∷ rs) =
      let rest = losses_back today rs in
      elim r.trade.closed_at [
        | none ↦ rest
        | some at ↦
            if not (is_same_day (date_of at) today)
            then 0
            else if lt r.trade.pnl_abs nought
            then suc rest
            else if lt nought r.trade.pnl_abs
            then 0
            else rest
      ]

  unfoldable pub consecutive_losses : List (ClosedTradeRecord W) → Time → ℕ
  unfolding losses_back
  consecutive_losses closed_records now = losses_back (date_of now) (backwards closed_records)

  abbrev pub pnl_before : Time → List (Time × W) → W
  pnl_before start events = foldl add nought (map (λ e. e.1) (keep (λ e. ltb e.0 start) events))

  unfoldable pub period_drawdown_pct : List (Time × W) → Time → Time → W → W
  unfolding sort period_loop
  period_drawdown_pct events start stop initial_equity =
      let equity = max (add initial_equity (pnl_before start events)) (lit 1 8) in
      let within = keep (λ e. leb start e.0 && ltb e.0 stop) (sort (before (λ e. e.0)) events) in
      min (max (period_loop equity equity nought (map (λ e. e.1) within)) nought) (of_nat 1)

  unfoldable pub compute_runtime_state :
      Time → List Time → List (ClosedTradeRecord W) → List (Time × W) → W → RuntimeState W
  unfolding consecutive_losses period_drawdown_pct
  compute_runtime_state now opened_trade_times closed_records closed_pnl_events initial_equity =
      let today = date_of now in
      let week_start = day_start (today - weekday today) in
      let losses =
        keep (λ r. lt r.trade.pnl_abs nought && is_some r.trade.closed_at) closed_records in
      record {
        now = now;
        trades_today = length (keep (λ t. is_same_day (date_of t) today) opened_trade_times);
        consecutive_losses = consecutive_losses closed_records now;
        daily_dd_pct =
            period_drawdown_pct closed_pnl_events (day_start today) (day_start today + hours 24)
              initial_equity;
        weekly_dd_pct =
            period_drawdown_pct closed_pnl_events week_start (week_start + hours 24 * 7)
              initial_equity;
        last_trade_at = latest opened_trade_times;
        last_loss_at = latest (times_of (map (λ r. r.trade.closed_at) losses));
      }
