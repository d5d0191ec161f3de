-- ===== src/Backtest/Guarded.antt =====
-- backtest/backtest_runner.py: what a bar makes of the stop of an open position.
use mathlib.Core.Path.{subst}
use btc_bot.Prelude.{
  ◌≡◌, refl, sym, ap, arith, true, false, Option, none, some, List, ◌⊎◌, inl, inr, Bool-cases,
}
use btc_bot.Prelude.Double.{Double, IsOrdered, nought}
use btc_bot.Core.Models.{Time, Direction, ExitReason}
use btc_bot.Core.Funding.{RawSample}
use btc_bot.Core.Risk.{RiskConfig, evaluate_exit}
use btc_bot.Backtest.Fill.{FillModel, FillResult, FillError}
use btc_bot.Backtest.Positions.{OpenPositionRecord, update_trailing_stop, trailed, given}
use btc_bot.Backtest.Settling.{settle_record}
use btc_bot.Backtest.Exits.{
  Bar, Fate, reduce_record, left_over, reduced_by, partial_qty, exit_partly, settled_by, exit_whole,
  closed_fate, exit_for, decided, advance_record, manage_record,
}
use btc_bot.Backtest.Trailing.{
  IsBeyond, IsReduced, IsGuarded, accrue_funding-IsGuarded, max-IsBeyond, min-IsBeyond,
}

module _ {W : Type 0} ⦃d : Double W⦄ where
  -- The record that a bar leaves open is guarded, and a trade that it closes is closed now.
  abbrev pub IsManaged : Time → FillError W ⊎ Fate W → Type 0
  IsManaged now (inl e) = Unit
  IsManaged now (inr (Fate.kept r)) = IsGuarded r
  IsManaged now (inr Fate.dropped) = Unit
  IsManaged now (inr (Fate.closed_with t)) = t.trade.closed_at ≡ some now

module _ {W : Type 0} ⦃d : Double W⦄ (laws : IsOrdered W) where
  trailed-IsReduced :
      (mult high low : W) (r : OpenPositionRecord W) (dir : Direction)
      → r.position.direction ≡ dir
      → IsReduced r
      → IsReduced (trailed mult high low r dir)
  trailed-IsReduced mult high low r Direction.long e (done, stop, beyond, part) =
      let same : given r.trailing_stop r.position.stop_loss ≡ r.position.stop_loss =
        ap (λ o. given o r.position.stop_loss) stop in
      let long_beyond =
        subst (λ x. IsBeyond x r.position.entry_price r.position.stop_loss) e beyond in
      let next = (trailed mult high low r Direction.long).position.stop_loss in
      (
        done,
        refl,
        subst (λ x. IsBeyond x r.position.entry_price next) (sym e)
            (max-IsBeyond laws r.position.entry_price _ _
              (subst (IsBeyond Direction.long r.position.entry_price) (sym same) long_beyond)),
        part,
      )
  trailed-IsReduced mult high low r Direction.short e (done, stop, beyond, part) =
      let same : given r.trailing_stop r.position.stop_loss ≡ r.position.stop_loss =
        ap (λ o. given o r.position.stop_loss) stop in
      let short_beyond =
        subst (λ x. IsBeyond x r.position.entry_price r.position.stop_loss) e beyond in
      let next = (trailed mult high low r Direction.short).position.stop_loss in
      (
        done,
        refl,
        subst (λ x. IsBeyond x r.position.entry_price next) (sym e)
            (min-IsBeyond laws r.position.entry_price _ _
              (subst (IsBeyond Direction.short r.position.entry_price) (sym same) short_beyond)),
        part,
      )

  stays :
      (mult high low : W) (r : OpenPositionRecord W)
      → r.partial_exit_done ≡ false
      → update_trailing_stop mult high low r ≡ r
  unfolding update_trailing_stop
  stays mult high low r e = ground (arith, e)

  moves :
      (mult high low : W) (r : OpenPositionRecord W)
      → r.partial_exit_done ≡ true
      → update_trailing_stop mult high low r ≡ trailed mult high low r r.position.direction
  unfolding update_trailing_stop
  moves mult high low r e = ground (arith, e)

  at_entry : (dir : Direction) (entry : W) → IsBeyond dir entry entry
  at_entry Direction.long entry = inl refl
  at_entry Direction.short entry = inl refl

  update_trailing_stop-IsGuarded :
      (mult high low : W) (r : OpenPositionRecord W)
      → IsGuarded r
      → IsGuarded (update_trailing_stop mult high low r)
  unfolding update_trailing_stop
  update_trailing_stop-IsGuarded mult high low r (inl whole) =
      subst IsGuarded (sym (stays mult high low r whole.0)) (inl whole)
  update_trailing_stop-IsGuarded mult high low r (inr part) =
      subst IsGuarded (sym (moves mult high low r part.0))
        (inr (trailed-IsReduced mult high low r r.position.direction refl part))

  module _ (c : RiskConfig W) (fills : FillModel W) (samples : List (RawSample W)) where
    advance_record-IsGuarded :
        (bar : Bar W) (r : OpenPositionRecord W)
        → IsGuarded r
        → IsGuarded (advance_record c fills samples bar r)
    unfolding advance_record
    advance_record-IsGuarded bar r h =
        update_trailing_stop-IsGuarded _ _ _ _ (accrue_funding-IsGuarded fills samples bar.now r h)

    reduce_record-IsReduced :
        (bar : Bar W) (reason : ExitReason) (qty : W) (fill : FillResult W)
        (r : OpenPositionRecord W)
        → IsReduced (reduce_record bar reason qty fill r)
    unfolding reduce_record
    reduce_record-IsReduced bar reason qty fill r =
        (refl, refl, at_entry r.position.direction r.position.entry_price, refl)

    left_over-IsManaged :
        (now : Time) (r : OpenPositionRecord W)
        → IsReduced r
        → IsManaged now (inr (left_over c fills samples r))
    left_over-IsManaged now r h = elim (Bool-cases (d.le r.position.size nought)) [
      | inl e ↦ rw e tt
      | inr e ↦ rw e (inr h)
    ]

    reduced_by-IsManaged :
        (bar : Bar W) (reason : ExitReason) (qty : W) (r : OpenPositionRecord W)
        (x : FillError W ⊎ FillResult W)
        → IsManaged bar.now (reduced_by c fills samples bar reason qty r x)
    reduced_by-IsManaged bar reason qty r (inl e) = tt
    reduced_by-IsManaged bar reason qty r (inr fill) =
        left_over-IsManaged bar.now _ (reduce_record-IsReduced bar reason qty fill r)

    exit_partly-IsManaged :
        (bar : Bar W) (price : W) (share : Option W) (r : OpenPositionRecord W)
        → IsGuarded r
        → IsManaged bar.now (exit_partly c fills samples bar price share r)
    unfolding exit_partly
    exit_partly-IsManaged bar price share r h =
        let qty = partial_qty c fills samples share r in
        elim (Bool-cases (d.le qty nought)) [
          | inl e ↦ rw (exit_partly, e) h
          | inr e ↦ rw (exit_partly, e) (reduced_by-IsManaged bar ExitReason.tp_partial qty r _)
        ]

    settled_by-IsManaged :
        (now : Time) (reason : ExitReason) (r : OpenPositionRecord W)
        (x : FillError W ⊎ FillResult W)
        → IsManaged now (closed_fate c fills samples (settled_by c fills samples now reason r x))
    unfolding settle_record
    settled_by-IsManaged now reason r (inl e) = tt
    settled_by-IsManaged now reason r (inr fill) = refl

    exit_for-IsManaged :
        (bar : Bar W) (price : W) (share : Option W) (reason : ExitReason)
        (r : OpenPositionRecord W)
        → IsGuarded r
        → IsManaged bar.now (exit_for c fills samples bar price share reason r)
    unfolding exit_whole
    exit_for-IsManaged bar price share ExitReason.tp_partial r h =
        exit_partly-IsManaged bar price share r h
    exit_for-IsManaged bar price share ExitReason.sl r h =
        settled_by-IsManaged bar.now ExitReason.sl r _
    exit_for-IsManaged bar price share ExitReason.tp r h =
        settled_by-IsManaged bar.now ExitReason.tp r _
    exit_for-IsManaged bar price share ExitReason.tp_trail r h =
        settled_by-IsManaged bar.now ExitReason.tp_trail r _
    exit_for-IsManaged bar price share ExitReason.timeout r h =
        settled_by-IsManaged bar.now ExitReason.timeout r _
    exit_for-IsManaged bar price share ExitReason.end_of_backtest r h =
        settled_by-IsManaged bar.now ExitReason.end_of_backtest r _

    decided-IsManaged :
        (bar : Bar W) (r : OpenPositionRecord W) (price : Option W) (reason : Option ExitReason)
        (share : Option W)
        → IsGuarded r
        → IsManaged bar.now (decided c fills samples bar r price reason share)
    decided-IsManaged bar r none reason share h = h
    decided-IsManaged bar r (some price) none share h = h
    decided-IsManaged bar r (some price) (some reason) share h =
        exit_for-IsManaged bar price share reason r h

    pub manage_record-IsManaged :
        (bar : Bar W) (r : OpenPositionRecord W)
        → IsGuarded r
        → IsManaged bar.now (manage_record c fills samples bar r)
    unfolding manage_record
    manage_record-IsManaged bar r h =
        let r' = advance_record c fills samples bar r in
        let h' = advance_record-IsGuarded bar r h in
        let candle = bar.candle.1 in
        let decision =
          evaluate_exit c r'.position bar.now candle.high candle.low candle.close true
            r'.partial_exit_done in
        elim (Bool-cases decision.should_close) [
          | inl e ↦
              rw (manage_record, e)
                (decided-IsManaged bar r' decision.exit_price decision.reason decision.partial_pct
                  h')
          | inr e ↦ rw (manage_record, e) h'
        ]
