-- ===== src/Backtest/Trailing.antt =====
-- backtest/backtest_runner.py: the stop of an open position.
use mathlib.Core.Path.{subst}
use btc_bot.Prelude.{◌≡◌, sym, true, false, none, some, List, ◌⊎◌, inl, inr, leb, Bool-cases}
use btc_bot.Prelude.Double.{Double, IsOrdered, nought, max, min, ◌≺◌}
use btc_bot.Prelude.Order.{le_of_lt, lt_of_lt_of_le}
use btc_bot.Core.Models.{Time, Direction, PositionStatus}
use btc_bot.Core.Funding.{RawSample}
use btc_bot.Backtest.Fill.{FillModel}
use btc_bot.Backtest.Positions.{OpenPositionRecord, accrue_funding, or_else_time}

module _ {W : Type 0} ⦃d : Double W⦄ where
  -- The stop `b` is at `a` or on the side of it where the position gains.
  abbrev pub IsBeyond : Direction → W → W → Type 0
  IsBeyond Direction.long a b = (a ≡ b) ⊎ (a ≺ b)
  IsBeyond Direction.short a b = (b ≡ a) ⊎ (b ≺ a)

  -- Nothing of the position is closed yet.
  abbrev pub IsWhole : OpenPositionRecord W → Type 0
  IsWhole r =
      (r.partial_exit_done ≡ false)
      × (r.trailing_stop ≡ none)
      × (r.position.stop_loss ≡ r.initial_stop_loss)
      × (r.position.size ≡ r.initial_size)
      × (r.position.status ≡ PositionStatus.opened)

  -- A part is closed, and the stop is at the entry or beyond.
  abbrev pub IsReduced : OpenPositionRecord W → Type 0
  IsReduced r =
      (r.partial_exit_done ≡ true)
      × (r.trailing_stop ≡ some r.position.stop_loss)
      × IsBeyond r.position.direction r.position.entry_price r.position.stop_loss
      × (r.position.status ≡ PositionStatus.partial)

  abbrev pub IsGuarded : OpenPositionRecord W → Type 0
  IsGuarded r = IsWhole r ⊎ IsReduced r

  pub accrue_funding-IsGuarded :
      (fills : FillModel W) (samples : List (RawSample W)) (until : Time) (r : OpenPositionRecord W)
      → IsGuarded r
      → IsGuarded (accrue_funding fills samples until r)
  unfolding accrue_funding
  accrue_funding-IsGuarded fills samples until r h =
      let last = or_else_time r.last_funding_accrual_at r.position.opened_at in
      elim (Bool-cases (leb until last)) [
        | inl e ↦ rw e h
        | inr e ↦
            let notional = max (d.mul r.position.entry_price r.position.size) nought in
            elim (Bool-cases (d.le notional nought)) [ inl f ↦ rw (e, f) h | inr f ↦ rw (e, f) h ]
      ]

  module _ (laws : IsOrdered W) where
    lt_trans : (x y z : W) → x ≺ y → y ≺ z → x ≺ z
    lt_trans x y z h k = lt_of_lt_of_le laws x y z h (le_of_lt laws y z k)

    pub max-IsBeyond :
        (entry current next : W)
        → IsBeyond Direction.long entry current
        → IsBeyond Direction.long entry (max current next)
    max-IsBeyond entry current next h = elim (Bool-cases (d.lt current next)) [
      | inr e ↦ rw e h
      | inl e ↦ rw e (
          inr (elim h [
            | inl f ↦ subst (λ x. x ≺ next) (sym f) e
            | inr f ↦ lt_trans entry current next f e
          ]))
    ]

    pub min-IsBeyond :
        (entry current next : W)
        → IsBeyond Direction.short entry current
        → IsBeyond Direction.short entry (min current next)
    min-IsBeyond entry current next h = elim (Bool-cases (d.lt next current)) [
      | inr e ↦ rw e h
      | inl e ↦ rw e (
          inr (elim h [
            | inl f ↦ subst (λ x. next ≺ x) f e
            | inr f ↦ lt_trans next current entry e f
          ]))
    ]
