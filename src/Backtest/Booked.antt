-- ===== src/Backtest/Booked.antt =====
-- backtest/backtest_runner.py: what holds of the state of a replay after each bar.
use mathlib.Core.List.{map-append}
use btc_bot.Prelude.{
  ◌≡◌, sym, ap, ◌∙◌, arith, ℕ, ◌+◌, ◌≤◌, true, none, some, List, [], ◌∷◌, ◌++◌, ◌⊎◌, inl, inr, map,
  length, length-append, All, All-append, is_some,
}
use btc_bot.Prelude.Double.{Double}
use btc_bot.Core.Models.{Time}
use btc_bot.Backtest.Performance.{is_closed, settled_at}
use btc_bot.Backtest.Fill.{FillError}
use btc_bot.Backtest.Positions.{OpenPositionRecord, ClosedTradeRecord}
use btc_bot.Backtest.Exits.{Fate}
use btc_bot.Backtest.Trailing.{IsGuarded}
use btc_bot.Backtest.Guarded.{IsManaged}
use btc_bot.Backtest.Runner.{Closing, with_closed, with_fate, if_filled}

-- It holds of the value, if no fill is refused.
abbrev pub Holds : {W A : Type 0} → (A → Type 0) → FillError W ⊎ A → Type 0
Holds P (inl e) = Unit
Holds P (inr a) = P a

pub if_filled-Holds :
    {W A B : Type 0} (P : A → Type 0) (Q : B → Type 0) (x : FillError W ⊎ A)
    (f : A → FillError W ⊎ B)
    → Holds P x
    → ((a : A) → P a → Holds Q (f a))
    → Holds Q (if_filled x f)
if_filled-Holds P Q (inl e) f h k = tt
if_filled-Holds P Q (inr a) f h k = k a h

module _ {W : Type 0} ⦃d : Double W⦄ where
  -- The time and the gain of a trade
  abbrev pub booked : ClosedTradeRecord W → Time × W
  booked t = (settled_at t.trade, t.trade.pnl_abs)

  -- Open positions are guarded, closed ones have a closing time, each with one entry in the list of
  -- gains, in their order, and there are not more of both than `n`.
  pub record IsBooked (n : ℕ) (opens : List (OpenPositionRecord W))
      (closes : List (ClosedTradeRecord W)) (events : List (Time × W)) : Type 0 where
    pub guarded : All IsGuarded opens
    pub closed : All (λ t. is_closed t.trade ≡ true) closes
    pub same_events : events ≡ map booked closes
    pub counted : length opens + length closes ≤ n

  -- With open positions that are still to come
  abbrev pub IsClosing : ℕ → List (OpenPositionRecord W) → Closing W → Type 0
  IsClosing n rs k =
      All IsGuarded rs
      × IsBooked n k.remaining k.closed_records k.closed_pnl_events
      × (length k.remaining + length k.closed_records + length rs ≤ n)

  settled_now :
      (t : ClosedTradeRecord W) (now : Time)
      → t.trade.closed_at ≡ some now
      → settled_at t.trade ≡ now
  settled_now t now e = ap (λ o. elim o [ none ↦ t.trade.opened_at | some at ↦ at ]) e

  pub with_closed-IsBooked :
      (n : ℕ) (now : Time) (t : ClosedTradeRecord W) (k : Closing W)
      → t.trade.closed_at ≡ some now
      → IsBooked n k.remaining k.closed_records k.closed_pnl_events
      → length k.remaining + length k.closed_records + 1 ≤ n
      → let k' = with_closed now t k in
        IsBooked n k'.remaining k'.closed_records k'.closed_pnl_events
  with_closed-IsBooked n now t k e h count = record {
    guarded = h.guarded;
    closed = All-append _ k.closed_records _ h.closed (ap is_some e, tt);
    same_events =
        ap (λ es. es ++ ((now, t.trade.pnl_abs) ∷ [])) h.same_events
        ∙ ap (λ at. map booked k.closed_records ++ ((at, t.trade.pnl_abs) ∷ []))
            (sym (settled_now t now e))
        ∙ sym (map-append booked k.closed_records (t ∷ []));
    counted = omega (arith, length-append k.closed_records (t ∷ []), count);
  }

  -- A fate that `manage_record` gives
  abbrev pub IsFate : Time → Fate W → Type 0
  IsFate now (Fate.kept r) = IsGuarded r
  IsFate now Fate.dropped = Unit
  IsFate now (Fate.closed_with t) = t.trade.closed_at ≡ some now

  pub managed-Holds :
      (now : Time) (x : FillError W ⊎ Fate W) → IsManaged now x → Holds (IsFate now) x
  managed-Holds now (inl e) h = tt
  managed-Holds now (inr (Fate.kept r)) h = h
  managed-Holds now (inr Fate.dropped) h = tt
  managed-Holds now (inr (Fate.closed_with t)) h = h

  pub with_fate-IsClosing :
      (n : ℕ) (now : Time) (fate : Fate W) (r : OpenPositionRecord W)
      (rs : List (OpenPositionRecord W)) (k : Closing W)
      → IsFate now fate
      → IsClosing n (r ∷ rs) k
      → IsClosing n rs (with_fate now fate k)
  with_fate-IsClosing n now (Fate.kept r') r rs k f (gs, h, count) = (
    gs.1,
    record {
      guarded = All-append _ k.remaining _ h.guarded (f, tt);
      closed = h.closed;
      same_events = h.same_events;
      counted = omega (arith, length-append k.remaining (r' ∷ []), count);
    },
    omega (arith, length-append k.remaining (r' ∷ []), count),
  )
  with_fate-IsClosing n now Fate.dropped r rs k f (gs, h, count) = (gs.1, h, omega (arith, count))
  with_fate-IsClosing n now (Fate.closed_with t) r rs k f (gs, h, count) = (
    gs.1,
    with_closed-IsBooked n now t k f h (omega (arith, count)),
    omega (arith, length-append k.closed_records (t ∷ []), count),
  )
