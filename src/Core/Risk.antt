-- ===== src/Core/Risk.antt =====
-- core/risk_engine.py: `RiskEngine`. Its `state_provider` is the argument `runtime`; hours and
-- counts in the config are not negative.
pub mod Sizing
pub mod Exit
pub mod Settlement
pub mod Mirror
use Prim.Native.Nat.{min as min_nat}
use btc_bot.Prelude.{
  ℕ, ◌+◌, Option, none, some, List, [], ◌∷◌, Bool, true, false, not, ◌&&◌, leb, if◌then◌else◌, map,
}
use btc_bot.Prelude.Double.{Double, max, min, nought}
use btc_bot.Core.Candles.{Candle, min_of, max_of}
use btc_bot.Core.Models.{
  Time, Direction, long, short, hours, ExecutableSignal, Position, RiskRuntimeState, ExitReason,
  SettlementMetrics,
}

pub data RiskReason (W : Type 0) : Type 0 where
  invalid_equity max_open_positions : RiskReason W
  rr_below_min : W → RiskReason W
  max_consecutive_losses daily_dd_limit weekly_dd_limit : RiskReason W
  invalid_stop_distance non_positive_size : RiskReason W

pub record RiskDecision (W : Type 0) : Type 0 where
  pub allowed : Bool
  pub size : W
  pub leverage : ℕ
  pub reason : Option (RiskReason W)

pub record RiskConfig (W : Type 0) : Type 0 where
  pub risk_per_trade_pct : W
  pub max_leverage : ℕ
  pub high_vol_leverage : ℕ
  pub min_rr : W
  pub max_open_positions : ℕ
  pub max_consecutive_losses : ℕ
  pub daily_dd_limit : W
  pub weekly_dd_limit : W
  pub max_hold_hours : ℕ
  pub high_vol_stop_distance_pct : W
  pub partial_exit_pct : W
  pub trailing_atr_mult : W

pub record ExitDecision (W : Type 0) : Type 0 where
  pub should_close : Bool
  pub reason : Option ExitReason
  pub exit_price : Option W
  pub partial_pct : Option W

module _ {W : Type 0} ⦃d : Double W⦄ where
  open d use {abs, neg, add, sub, mul, div, le, lt, lit, of_nat}

  abbrev deny : RiskReason W → RiskDecision W
  deny r = record { allowed = false; size = nought; leverage = 0; reason = some r }

  unfoldable pub select_leverage : RiskConfig W → ExecutableSignal W → ℕ
  select_leverage c signal =
      let stop_distance_pct =
        div (abs (sub signal.entry_price signal.stop_loss)) (max signal.entry_price (lit 1 8)) in
      if le c.high_vol_stop_distance_pct stop_distance_pct
      then min_nat c.high_vol_leverage c.max_leverage
      else c.max_leverage

  -- the size before its last test, from the stop distance and the leverage
  unfoldable pub position_size : RiskConfig W → ExecutableSignal W → W → W
  unfolding select_leverage
  position_size c signal equity =
      let stop_distance = abs (sub signal.entry_price signal.stop_loss) in
      let risk_capital = mul equity c.risk_per_trade_pct in
      let raw_size = div risk_capital stop_distance in
      let max_size_by_leverage =
        div (mul equity (of_nat (select_leverage c signal))) (max signal.entry_price (lit 1 8)) in
      min raw_size max_size_by_leverage

  unfoldable pub evaluate :
      RiskConfig W → RiskRuntimeState W → ExecutableSignal W → W → ℕ → RiskDecision W
  evaluate c runtime signal equity open_positions =
      let size = position_size c signal equity in
      if le equity nought
      then deny RiskReason.invalid_equity
      else if leb c.max_open_positions open_positions
      then deny RiskReason.max_open_positions
      else if lt signal.rr_ratio c.min_rr
      then deny (RiskReason.rr_below_min signal.rr_ratio)
      else if leb c.max_consecutive_losses runtime.consecutive_losses
      then deny RiskReason.max_consecutive_losses
      else if le c.daily_dd_limit runtime.daily_dd_pct
      then deny RiskReason.daily_dd_limit
      else if le c.weekly_dd_limit runtime.weekly_dd_pct
      then deny RiskReason.weekly_dd_limit
      else if le (abs (sub signal.entry_price signal.stop_loss)) nought
      then deny RiskReason.invalid_stop_distance
      else if le size nought
      then deny RiskReason.non_positive_size
      else record {
        allowed = true;
        size = size;
        leverage = select_leverage c signal;
        reason = none;
      }

  abbrev pub close_at : ExitReason → W → ExitDecision W
  close_at r price = record {
    should_close = true;
    reason = some r;
    exit_price = some price;
    partial_pct = none;
  }

  abbrev pub close_part : W → W → ExitDecision W
  close_part price part = record {
    should_close = true;
    reason = some ExitReason.tp_partial;
    exit_price = some price;
    partial_pct = some part;
  }

  abbrev pub stay : ExitDecision W
  stay = record { should_close = false; reason = none; exit_price = none; partial_pct = none }

  -- `min(max(self.config.partial_exit_pct, 0.0), 1.0)`
  abbrev pub partial_share : RiskConfig W → W
  partial_share c = min (max c.partial_exit_pct nought) (of_nat 1)

  -- the test at the end of `evaluate_exit`
  unfoldable pub hold_or_timeout : RiskConfig W → Position W → Time → W → ExitDecision W
  hold_or_timeout c position now latest_close =
      if leb (position.opened_at + hours c.max_hold_hours) now
      then close_at ExitReason.timeout latest_close
      else stay

  -- what follows once the take profit is reached
  unfoldable pub take_profit : RiskConfig W → Position W → Bool → Bool → ExitDecision W
  take_profit c position enabled done =
      let share = partial_share c in
      let allow_partial = enabled && not done && lt nought share in
      if allow_partial && lt share (of_nat 1)
      then close_part position.take_profit_1 share
      else close_at ExitReason.tp position.take_profit_1

  -- `enabled` and `done` are `partial_exit_enabled` and `partial_exit_done`.
  unfoldable pub evaluate_exit :
      RiskConfig W → Position W → Time → W → W → W → Bool → Bool → ExitDecision W
  unfolding hold_or_timeout take_profit
  evaluate_exit c position now latest_high latest_low latest_close enabled done =
      let stopped =
        if done
        then close_at ExitReason.tp_trail position.stop_loss
        else close_at ExitReason.sl position.stop_loss in
      let taken = take_profit c position enabled done in
      let rest = hold_or_timeout c position now latest_close in
      elim position.direction [
        | Direction.long ↦
            if le latest_low position.stop_loss
            then stopped
            else if not done && le position.take_profit_1 latest_high
            then taken
            else rest
        | Direction.short ↦
            if le position.stop_loss latest_high
            then stopped
            else if not done && le latest_low position.take_profit_1
            then taken
            else rest
      ]

  unfoldable pub compute_pnl_abs : Position W → W → W
  compute_pnl_abs position exit_price = elim position.direction [
    | Direction.long ↦ mul (sub exit_price position.entry_price) position.size
    | Direction.short ↦ mul (sub position.entry_price exit_price) position.size
  ]

  unfoldable pub compute_pnl_r : Position W → W → W
  compute_pnl_r position exit_price =
      let risk_per_unit = abs (sub position.entry_price position.stop_loss) in
      if le risk_per_unit nought then nought else elim position.direction [
        | Direction.long ↦ div (sub exit_price position.entry_price) risk_per_unit
        | Direction.short ↦ div (sub position.entry_price exit_price) risk_per_unit
      ]

  abbrev lowest : W → List (Candle W) → W
  lowest exit_price [] = exit_price
  lowest exit_price (c ∷ cs) = min_of c.low (map (λ x. x.low) cs)

  abbrev highest : W → List (Candle W) → W
  highest exit_price [] = exit_price
  highest exit_price (c ∷ cs) = max_of c.high (map (λ x. x.high) cs)

  -- the pair (mae, mfe)
  unfoldable pub compute_mae_mfe : Position W → W → List (Candle W) → W × W
  compute_mae_mfe position exit_price candles =
      let entry = position.entry_price in
      let low = lowest exit_price candles in
      let high = highest exit_price candles in
      elim position.direction [
        | Direction.long ↦ (
          max (mul (sub entry low) position.size) nought,
          max (mul (sub high entry) position.size) nought,
        )
        | Direction.short ↦ (
          max (mul (sub high entry) position.size) nought,
          max (mul (sub entry low) position.size) nought,
        )
      ]

  unfoldable pub build_settlement_metrics :
      Position W → W → ExitReason → List (Candle W) → SettlementMetrics W
  unfolding compute_pnl_abs compute_pnl_r compute_mae_mfe
  build_settlement_metrics position exit_price exit_reason candles =
      let (mae, mfe) = compute_mae_mfe position exit_price candles in
      record {
        exit_price = exit_price;
        pnl_abs = compute_pnl_abs position exit_price;
        pnl_r = compute_pnl_r position exit_price;
        mae = mae;
        mfe = mfe;
        exit_reason = exit_reason;
        funding_paid = nought;
      }
