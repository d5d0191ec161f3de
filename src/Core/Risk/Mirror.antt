-- ===== src/Core/Risk/Mirror.antt =====
-- Longs and shorts are mirror images for `RiskEngine`: negated prices, opposite direction.
use mathlib.Core.Option
use btc_bot.Prelude.{◌≡◌, Bool, arith}
use btc_bot.Prelude.Double.{Double, IsRounded}
use btc_bot.Core.Models.{Time, Direction, Position}
use btc_bot.Core.Risk.{RiskConfig, ExitDecision, evaluate_exit, compute_pnl_abs}

abbrev pub opposite : Direction → Direction
opposite Direction.long = Direction.short
opposite Direction.short = Direction.long

module _ {W : Type 0} ⦃d : Double W⦄ where
  open d use {neg}

  abbrev pub mirror : Position W → Position W
  mirror p = record p {
    direction = opposite p.direction;
    entry_price = neg p.entry_price;
    stop_loss = neg p.stop_loss;
    take_profit_1 = neg p.take_profit_1;
    take_profit_2 = neg p.take_profit_2;
  }

  -- The same decision, at the negated price.
  abbrev pub mirror_exit : ExitDecision W → ExitDecision W
  mirror_exit r = record r { exit_price = Option.map neg r.exit_price }

  -- A mirrored position leaves on a mirrored candle (its high and low change places) by the same
  -- decision at the mirrored price, and its profit in money is the same.
  pub exit_mirror :
      (rounds : IsRounded W) (c : RiskConfig W) (p : Position W) (now : Time)
      (high low close price : W) (enabled done : Bool)
      → (evaluate_exit c (mirror p) now (neg low) (neg high) (neg close) enabled done
          ≡ mirror_exit (evaluate_exit c p now high low close enabled done))
        × (compute_pnl_abs (mirror p) (neg price) ≡ compute_pnl_abs p price)
  unfolding evaluate_exit compute_pnl_abs
  exit_mirror rounds c p now high low close price enabled done = (
    ground (
      arith,
      rounds.le_neg p.stop_loss low,
      rounds.le_neg high p.take_profit_1,
      rounds.le_neg high p.stop_loss,
      rounds.le_neg p.take_profit_1 low,
    ),
    ground (arith, rounds.sub_neg price p.entry_price, rounds.sub_neg p.entry_price price),
  )
