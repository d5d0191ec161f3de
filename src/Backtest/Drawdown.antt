-- ===== src/Backtest/Drawdown.antt =====
-- backtest/performance.py: the range of `_max_drawdown_pct`.
use mathlib.Core.Path.{subst}
use btc_bot.Prelude.{
  ◌≡◌, refl, sym, false, arith, List, [], ◌∷◌, ◌⊎◌, All, All-map, Bool-cases, inl, inr,
}
use btc_bot.Prelude.Double.{Double, IsOrdered, IsNumber, nought, max, min, ◌≼◌}
use btc_bot.Prelude.Order.{le_of_lt, le_of_not_lt}
use btc_bot.Backtest.Performance.{peak_after, drawdown_at, drawdown_loop, max_drawdown_pct}

module _ {W : Type 0} ⦃d : Double W⦄ (laws : IsOrdered W) where
  open d use {add, lt, of_nat}
  open laws use {num_of_le, num_of_lt, le_trans}

  -- The drawdowns after each trade.
  abbrev pub drawdowns : W → W → List W → List W
  drawdowns peak equity [] = []
  drawdowns peak equity (pnl ∷ pnls) =
      let equity' = add equity pnl in
      let peak' = peak_after peak equity' in
      drawdown_at peak' equity' ∷ drawdowns peak' equity' pnls

  -- The larger of a number and a value that may be NaN.
  max_or_nan :
      (m x : W) → IsNumber m → IsNumber (max m x) × (m ≼ max m x) × (IsNumber x → x ≼ max m x)
  max_or_nan m x n = elim (Bool-cases (lt m x)) [
    | inl e ↦ rw e ((num_of_lt m x e).1, le_of_lt laws m x e, λ k. k)
    | inr e ↦ rw e (n, n, λ k. le_of_not_lt laws x m k n e)
  ]

  drawdown_loop-ge :
      (peak equity max_dd : W) (pnls : List W)
      → IsNumber max_dd
      → let r = drawdown_loop peak equity max_dd pnls in
        (max_dd ≼ r) × All (λ x. IsNumber x → x ≼ r) (drawdowns peak equity pnls)
  unfolding drawdown_loop
  drawdown_loop-ge peak equity max_dd [] n = (n, tt)
  drawdown_loop-ge peak equity max_dd (pnl ∷ pnls) n =
      let equity' = add equity pnl in
      let peak' = peak_after peak equity' in
      let x = drawdown_at peak' equity' in
      let (num, left, right) = max_or_nan max_dd x n in
      let r = drawdown_loop peak' equity' (max max_dd x) pnls in
      let (ge, rest) = drawdown_loop-ge peak' equity' (max max_dd x) pnls num in
      (
        le_trans max_dd (max max_dd x) r left ge,
        ((λ k. le_trans x (max max_dd x) r (right k) ge), rest),
      )

  -- The result of `min(max(raw, 0.0), 1.0)` for a number that is not negative
  capped :
      (raw : W)
      → nought ≼ raw
      → nought ≼ of_nat 1
      → let r = min (max raw nought) (of_nat 1) in
        (nought ≼ r) × (r ≼ of_nat 1) × ((r ≡ raw) ⊎ (r ≡ of_nat 1))
  capped raw h unit =
      let kept : lt raw nought ≡ false = lt_of_le raw nought h in
      rw kept (elim (Bool-cases (lt (of_nat 1) raw)) [
        | inl e ↦ rw e (unit, (num_of_le nought (of_nat 1) unit).1, inr refl)
        | inr e ↦ rw e (
          h,
          le_of_not_lt laws raw (of_nat 1) (num_of_le nought raw h).1
              (num_of_le nought (of_nat 1) unit).1 e,
          inl refl,
        )
      ])
    where
      lt_of_le : (x y : W) → y ≼ x → lt x y ≡ false
      lt_of_le x y k = let n = num_of_le y x k in ground (arith, laws.lt-eq-not-le x y n.1 n.0)

  -- The maximal drawdown is between 0 and 1, and no drawdown after a trade is above it unless it is
  -- capped at 1; a drawdown that is NaN does not count.
  pub max_drawdown_pct_bounds :
      (pnls : List W) (initial_equity : W)
      → nought ≼ of_nat 1
      → let r = max_drawdown_pct pnls initial_equity in
        (nought ≼ r)
        × (r ≼ of_nat 1)
        × All
            (λ x. IsNumber x → (x ≼ r) ⊎ (r ≡ of_nat 1))
            (drawdowns initial_equity initial_equity pnls)
  unfolding max_drawdown_pct
  max_drawdown_pct_bounds pnls initial_equity unit =
      let raw = drawdown_loop initial_equity initial_equity nought pnls in
      let (ge, rest) = drawdown_loop-ge initial_equity initial_equity nought pnls laws.nought_num in
      let (low, high, which) = capped raw ge unit in
      let r = min (max raw nought) (of_nat 1) in
      let below : (x : W) → (IsNumber x → x ≼ raw) → IsNumber x → (x ≼ r) ⊎ (r ≡ of_nat 1) =
        λ x f n. elim which [ inl e ↦ inl (subst (λ y. x ≼ y) (sym e) (f n)) | inr e ↦ inr e ] in
      (
        low,
        high,
        All-map (λ x. IsNumber x → x ≼ raw) (λ x. IsNumber x → (x ≼ r) ⊎ (r ≡ of_nat 1))
            (drawdowns initial_equity initial_equity pnls) below rest,
      )
