-- ===== src/Backtest/Order.antt =====
-- backtest/performance.py: the order of the trades, where no two were closed at once.
use mathlib.Core.List.{Permᴰ}
use mathlib.Core.List.Permᴰ
use btc_bot.Prelude.{◌≡◌, refl, Bool, List, keep, Bool-cases, inl, inr}
use btc_bot.Prelude.Double.{Double}
use btc_bot.Prelude.Sorting.{HasDistinctKeys, sort_of_perm}
use btc_bot.Backtest.Performance.{TradeLog, is_closed, settled_at, summarize}

keep-perm :
    {A : Type 0} (p : A → Bool) {xs ys : List A} → Permᴰ xs ys → Permᴰ (keep p xs) (keep p ys)
keep-perm p Permᴰ.nil = Permᴰ.nil
keep-perm p (Permᴰ.cons {b = b} e q) = rw e (elim (Bool-cases (p b)) [
  | inl h ↦ rw h (Permᴰ.cons refl (keep-perm p q))
  | inr h ↦ rw h (keep-perm p q)
])
keep-perm p (Permᴰ.swap {a = a} {b = b} {l = l} e f) =
    rw (← e, ← f)
      (elim (Bool-cases (p a)) [
        | inl g ↦ elim (Bool-cases (p b)) [
          | inl h ↦ rw (g, h) (Permᴰ.swap refl refl)
          | inr h ↦ rw (g, h) (Permᴰ.refl _)
        ]
        | inr g ↦ elim (Bool-cases (p b)) [
          | inl h ↦ rw (g, h) (Permᴰ.refl _)
          | inr h ↦ rw (g, h) (Permᴰ.refl _)
        ]
      ])
keep-perm p (Permᴰ.trans q r) = Permᴰ.trans (keep-perm p q) (keep-perm p r)

module _ {W : Type 0} ⦃d : Double W⦄ where
  -- The report on the trades does not depend on the order in which they come, if no two closed
  -- trades were closed at the same time.
  summarize_of_perm :
      (xs ys : List (TradeLog W)) (initial_equity : W)
      → Permᴰ xs ys
      → HasDistinctKeys settled_at (keep is_closed xs)
      → summarize xs initial_equity ≡ summarize ys initial_equity
  unfolding summarize
  summarize_of_perm xs ys initial_equity p h =
      rw (sort_of_perm settled_at (keep-perm is_closed p) h) refl
