-- ===== src/Core/Risk/Sizing.antt =====
-- `RiskEngine.evaluate`: when a signal is allowed, and the bounds of its size and leverage.
use btc_bot.Prelude.{ℕ, ◌≤◌, ◌<◌, ◌≡◌, true, ◌↔◌, arith, none}
use btc_bot.Prelude.Double.{Double, IsOrdered, IsNumber, ◌≼◌, ◌≺◌, max, min, nought}
use btc_bot.Prelude.Order.{min-le_left, min-le_right, min_num}
use btc_bot.Core.Models.{ExecutableSignal, RiskRuntimeState}
use btc_bot.Core.Risk.{RiskConfig, evaluate, position_size, select_leverage}

module _ {W : Type 0} ⦃d : Double W⦄ where
  open d use {sub, abs, mul, div, of_nat, lit}

  -- What a signal must meet to be allowed, said without the code's tests.
  pub record IsAllowed (c : RiskConfig W) (runtime : RiskRuntimeState W)
      (signal : ExecutableSignal W) (equity : W) (open_positions : ℕ) : Type 0 where
    pub equity_positive : nought ≺ equity
    pub positions_below : open_positions < c.max_open_positions
    pub rr_enough : c.min_rr ≼ signal.rr_ratio
    pub losses_below : runtime.consecutive_losses < c.max_consecutive_losses
    pub daily_below : runtime.daily_dd_pct ≺ c.daily_dd_limit
    pub weekly_below : runtime.weekly_dd_pct ≺ c.weekly_dd_limit
    pub stop_away : nought ≺ abs (sub signal.entry_price signal.stop_loss)
    pub size_positive : nought ≺ position_size c signal equity

  -- Every value that `evaluate` compares is a number.
  pub record IsNumeric (c : RiskConfig W) (runtime : RiskRuntimeState W)
      (signal : ExecutableSignal W) (equity : W) : Type 0 where
    pub equity_num : IsNumber equity
    pub rr_num : IsNumber signal.rr_ratio
    pub min_rr_num : IsNumber c.min_rr
    pub daily_num : IsNumber runtime.daily_dd_pct
    pub daily_limit_num : IsNumber c.daily_dd_limit
    pub weekly_num : IsNumber runtime.weekly_dd_pct
    pub weekly_limit_num : IsNumber c.weekly_dd_limit
    pub stop_num : IsNumber (abs (sub signal.entry_price signal.stop_loss))
    pub size_num : IsNumber (position_size c signal equity)

  -- On numbers, a signal is allowed exactly when equity, stop distance and size are positive, both
  -- counts and both drawdowns are below their limits, and the reward to risk ratio is high enough.
  pub evaluate_allows_iff :
      (laws : IsOrdered W) (c : RiskConfig W) (runtime : RiskRuntimeState W)
      (signal : ExecutableSignal W) (equity : W) (open_positions : ℕ)
      → IsNumeric c runtime signal equity
      → ((evaluate c runtime signal equity open_positions).allowed ≡ true)
        ↔ IsAllowed c runtime signal equity open_positions
  unfolding evaluate
  evaluate_allows_iff laws c runtime signal equity n num =
      let positive = laws.lt-eq-not-le nought equity laws.nought_num num.equity_num in
      let rr = laws.lt-eq-not-le signal.rr_ratio c.min_rr num.rr_num num.min_rr_num in
      let daily =
        laws.lt-eq-not-le runtime.daily_dd_pct c.daily_dd_limit num.daily_num num.daily_limit_num in
      let weekly =
        laws.lt-eq-not-le runtime.weekly_dd_pct c.weekly_dd_limit num.weekly_num
          num.weekly_limit_num in
      let stop =
        laws.lt-eq-not-le nought (abs (sub signal.entry_price signal.stop_loss)) laws.nought_num
          num.stop_num in
      let size =
        laws.lt-eq-not-le nought (position_size c signal equity) laws.nought_num num.size_num in
      (
        λ h. ground (arith, positive, rr, daily, weekly, stop, size),
        λ a. ground (arith, positive, rr, daily, weekly, stop, size),
      )

  -- The two sizes that `evaluate` takes the smaller of.
  abbrev pub size_by_risk : RiskConfig W → ExecutableSignal W → W → W
  size_by_risk c signal equity =
      div (mul equity c.risk_per_trade_pct) (abs (sub signal.entry_price signal.stop_loss))

  abbrev pub size_by_leverage : ExecutableSignal W → W → ℕ → W
  size_by_leverage signal equity leverage =
      div (mul equity (of_nat leverage)) (max signal.entry_price (lit 1 8))

  -- The stop is as far from the entry as the config calls volatile.
  abbrev pub IsWide : RiskConfig W → ExecutableSignal W → Type 0
  IsWide c signal =
      c.high_vol_stop_distance_pct
      ≼ div (abs (sub signal.entry_price signal.stop_loss)) (max signal.entry_price (lit 1 8))

  select_leverage-le :
      (c : RiskConfig W) (signal : ExecutableSignal W)
      → (select_leverage c signal ≤ c.max_leverage)
        × (IsWide c signal → select_leverage c signal ≤ c.high_vol_leverage)
  unfolding select_leverage
  select_leverage-le c signal = ground arith

  -- An allowed signal gets a positive size, which exceeds neither the size whose stop distance
  -- costs the risk capital nor the size that the chosen leverage can carry; the leverage is at most
  -- the maximum, and at most the lower one where the stop is wide. The two sizes must be numbers.
  pub evaluate_bounds :
      (laws : IsOrdered W) (c : RiskConfig W) (runtime : RiskRuntimeState W)
      (signal : ExecutableSignal W) (equity : W) (open_positions : ℕ)
      → IsNumber (size_by_risk c signal equity)
      → IsNumber (size_by_leverage signal equity (select_leverage c signal))
      → (evaluate c runtime signal equity open_positions).allowed ≡ true
      → let r = evaluate c runtime signal equity open_positions in
        (nought ≺ r.size)
        × (r.size ≼ size_by_risk c signal equity)
        × (r.size ≼ size_by_leverage signal equity r.leverage)
        × (r.leverage ≤ c.max_leverage)
        × (IsWide c signal → r.leverage ≤ c.high_vol_leverage)
        × (r.reason ≡ none)
  unfolding evaluate position_size
  evaluate_bounds laws c runtime signal equity n m k h =
      let raw = size_by_risk c signal equity in
      let cap = size_by_leverage signal equity (select_leverage c signal) in
      let num = min_num laws raw cap m k in
      ground (
        arith,
        laws.lt-eq-not-le nought (min raw cap) laws.nought_num num,
        min-le_left laws raw cap m k,
        min-le_right laws raw cap m k,
        select_leverage-le c signal,
      )
