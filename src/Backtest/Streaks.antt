-- ===== src/Backtest/Streaks.antt =====
-- backtest/performance.py: what `_max_consecutive_losses` counts.
use btc_bot.Prelude.{
  ℕ, suc, ◌+◌, ◌≤◌, ◌≡◌, arith, List, [], ◌∷◌, ltb, if◌then◌else◌, Bool-cases, inl, inr,
}
use btc_bot.Prelude.Double.{Double, nought}
use btc_bot.Backtest.Performance.{TradeLog, count_losses, max_consecutive_losses}

abbrev larger : ℕ → ℕ → ℕ
larger a b = if ltb a b then b else a

module _ {W : Type 0} ⦃d : Double W⦄ where
  open d use {lt}

  -- The losing trades before the first winning one; a trade that makes nothing is passed over.
  abbrev pub streak : List (TradeLog W) → ℕ
  streak [] = 0
  streak (t ∷ ts) =
      let rest = streak ts in
      if lt t.pnl_abs nought then suc rest else if lt nought t.pnl_abs then 0 else rest

  -- The largest streak from any trade on.
  abbrev pub longest_streak : List (TradeLog W) → ℕ
  longest_streak [] = 0
  longest_streak (t ∷ ts) = larger (streak (t ∷ ts)) (longest_streak ts)

  streak-le : (ts : List (TradeLog W)) → streak ts ≤ longest_streak ts
  streak-le [] = omega arith
  streak-le (t ∷ ts) = ground arith

  count_losses-eq :
      (current longest : ℕ) (ts : List (TradeLog W))
      → current ≤ longest
      → count_losses current longest ts
        ≡ larger longest (larger (current + streak ts) (longest_streak ts))
  unfolding count_losses
  count_losses-eq current longest [] h = ground arith
  count_losses-eq current longest (t ∷ ts) h = elim (Bool-cases (lt t.pnl_abs nought)) [
    | inl e ↦ rw e (
        let ih = count_losses-eq (suc current) (larger longest (suc current)) ts (ground arith) in
        ground (arith, ih, e))
    | inr e ↦ rw e (elim (Bool-cases (lt nought t.pnl_abs)) [
      | inl f ↦
          rw f (
            let ih = count_losses-eq 0 longest ts (omega arith) in ground (arith, ih, streak-le ts))
      | inr f ↦
          rw f (let ih = count_losses-eq current longest ts h in ground (arith, ih, streak-le ts))
    ])
  ]

  -- The number of consecutive losses is the longest streak of losing trades that no winning trade
  -- interrupts, from any trade on.
  max_consecutive_losses-eq :
      (ts : List (TradeLog W)) → max_consecutive_losses ts ≡ longest_streak ts
  unfolding max_consecutive_losses
  max_consecutive_losses-eq ts = ground (arith, count_losses-eq 0 0 ts (omega arith), streak-le ts)
