-- ===== src/Backtest/Fill.antt =====
-- backtest/fill_model.py: what an order of a replay is filled at, and what it costs.
use btc_bot.Prelude.{◌⊎◌, inl, inr, List, if◌then◌else◌}
use btc_bot.Prelude.Double.{Double, nought}
use btc_bot.Core.Models.{Time, Direction}
use btc_bot.Core.Funding.{RawSample, compute_funding_paid}
use btc_bot.Execution.Paper.{OrderSide, OrderType}

pub record FillResult (W : Type 0) : Type 0 where
  pub filled_price : W
  pub slippage_bps : W
  pub fee_paid : W

-- The ValueErrors
pub data FillError (W : Type 0) : Type 0 where
  price_not_positive : W → FillError W
  qty_not_positive : W → FillError W
  unsupported_order_type : OrderType → FillError W

-- `FillModel`
pub record FillModel (W : Type 0) : Type 0 where
  pub simulate : W → W → OrderType → OrderSide → FillError W ⊎ FillResult W
  pub calculate_funding : Direction → W → Time → Time → List (RawSample W) → W

pub record FillModelConfig (W : Type 0) : Type 0 where
  pub slippage_bps_limit : W
  pub slippage_bps_market : W
  pub fee_rate_maker : W
  pub fee_rate_taker : W

module _ {W : Type 0} ⦃d : Double W⦄ where
  open d use {add, mul, div, neg, le, of_nat}

  abbrev pub direction_sign : OrderSide → W
  direction_sign OrderSide.buy = of_nat 1
  direction_sign OrderSide.sell = neg (of_nat 1)

  -- the fill with this slippage and this rate of fees
  unfoldable pub fill_with : W → W → OrderSide → W → W → FillResult W
  fill_with requested_price qty side slippage_bps fee_rate =
      let moved = add (of_nat 1) (div (mul (direction_sign side) slippage_bps) (of_nat 10_000)) in
      let filled_price = mul requested_price moved in
      record {
        filled_price = filled_price;
        slippage_bps = slippage_bps;
        fee_paid = mul (mul filled_price qty) fee_rate;
      }

  abbrev pub fill_by_type :
      FillModelConfig W → W → W → OrderType → OrderSide → FillError W ⊎ FillResult W
  fill_by_type c price qty OrderType.limit side =
      inr (fill_with price qty side c.slippage_bps_limit c.fee_rate_maker)
  fill_by_type c price qty OrderType.market side =
      inr (fill_with price qty side c.slippage_bps_market c.fee_rate_taker)
  fill_by_type c price qty order_type side = inl (FillError.unsupported_order_type order_type)

  unfoldable pub simulate :
      FillModelConfig W → W → W → OrderType → OrderSide → FillError W ⊎ FillResult W
  unfolding fill_with
  simulate c requested_price qty order_type side =
      if le requested_price nought
      then inl (FillError.price_not_positive requested_price)
      else if le qty nought
      then inl (FillError.qty_not_positive qty)
      else fill_by_type c requested_price qty order_type side

  -- `SimpleFillModel`
  unfoldable pub simple_fill_model : FillModelConfig W → FillModel W
  unfolding simulate compute_funding_paid
  simple_fill_model c = record { simulate = simulate c; calculate_funding = compute_funding_paid }
