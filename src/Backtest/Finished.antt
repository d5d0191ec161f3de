-- ===== src/Backtest/Finished.antt =====
-- backtest/backtest_runner.py, `run`: what holds of its result.
use btc_bot.Prelude.{
  ◌≡◌, refl, ap, true, Option, none, is_some, arith, ℕ, some, List, [], ◌∷◌, ◌⊎◌, inl, inr, length,
  ◌+◌, ◌≤◌, length-append,
}
use btc_bot.Prelude.Double.{Double}
use btc_bot.Core.Models.{Time, ExitReason}
use btc_bot.Core.Funding.{RawSample}
use btc_bot.Orchestrator.World.{Settings}
use btc_bot.Backtest.Fill.{FillModel, FillResult, FillError}
use btc_bot.Backtest.Positions.{OpenPositionRecord}
use btc_bot.Backtest.Settling.{settle_record}
use btc_bot.Backtest.Exits.{settled_by, exit_whole, prolonged, force_close_record}
use btc_bot.Backtest.Booked.{Holds, if_filled-Holds, IsBooked, with_closed-IsBooked}
use btc_bot.Backtest.Sound.{IsSoundReplay}
use btc_bot.Backtest.Runner.{Replay, Ids, BacktestConfig, Closing, with_closed}
use btc_bot.Backtest.Run.{force_loop, force_close, closed_at_end, finish_replay}

module _ {W : Type 0} ⦃d : Double W⦄ (s : Settings W) (fills : FillModel W)
    (samples : List (RawSample W)) (ids : Ids) (config : BacktestConfig W) where
  settled_by-Holds :
      (now : Time) (reason : ExitReason) (r : OpenPositionRecord W) (x : FillError W ⊎ FillResult W)
      → Holds (λ t. t.trade.closed_at ≡ some now) (settled_by s.risk fills samples now reason r x)
  unfolding settle_record
  settled_by-Holds now reason r (inl e) = tt
  settled_by-Holds now reason r (inr fill) = refl

  force_close_record-Holds :
      (now : Time) (price : W) (r : OpenPositionRecord W)
      → Holds
          (λ t. t.trade.closed_at ≡ some now)
          (force_close_record s.risk fills samples now price r)
  unfolding force_close_record exit_whole
  force_close_record-Holds now price r =
      settled_by-Holds now ExitReason.end_of_backtest (prolonged s.risk fills samples now price r) _

  -- The books with no position left in them, and `n` still to close
  abbrev IsForced : ℕ → ℕ → Closing W → Type 0
  IsForced n left k =
      (k.remaining ≡ [])
      × IsBooked n k.remaining k.closed_records k.closed_pnl_events
      × (length k.closed_records + left ≤ n)

  force_loop-IsForced :
      (n : ℕ) (now : Time) (price : W) (rs : List (OpenPositionRecord W)) (k : Closing W)
      → IsForced n (length rs) k
      → Holds (IsForced n 0) (force_loop s fills samples ids config now price rs k)
  unfolding force_loop
  force_loop-IsForced n now price [] k h = h
  force_loop-IsForced n now price (r ∷ rs) k (none_left, h, count) =
      if_filled-Holds (λ t. t.trade.closed_at ≡ some now) (IsForced n 0)
        (force_close_record s.risk fills samples now price r) _
        (force_close_record-Holds now price r)
        (λ t e. force_loop-IsForced n now price rs (with_closed now t k) (
          none_left,
          with_closed-IsBooked n now t k e h (omega (arith, count, ap length none_left)),
          omega (arith, length-append k.closed_records (t ∷ []), count),
        ))

  -- The books are sound, and no position is open.
  abbrev pub IsFinished : Replay W → Type 0
  IsFinished w = (w.open_positions ≡ []) × IsSoundReplay w

  force_close-Holds :
      (now : Time) (price : W) (w : Replay W)
      → IsSoundReplay w
      → Holds IsFinished (force_close s fills samples ids config now price w)
  force_close-Holds now price w h =
      if_filled-Holds (IsForced w.trade_counter 0) IsFinished
        (force_loop s fills samples ids config now price w.open_positions _) _
        (force_loop-IsForced w.trade_counter now price w.open_positions _ (
          refl,
          record {
            guarded = tt;
            closed = h.0.closed;
            same_events = h.0.same_events;
            counted = omega (arith, h.0.counted);
          },
          omega (arith, h.0.counted),
        ))
        (λ k b. (b.0, (b.1, h.1, h.2)))

  -- A position is open only where a snapshot was seen.
  abbrev pub IsSeen : Replay W → Type 0
  IsSeen w = (w.open_positions ≡ []) ⊎ (is_some w.last_seen ≡ true)

  closed_at_end-Holds :
      (rs : List (OpenPositionRecord W)) (last : Option (Time × W)) (w : Replay W)
      → w.open_positions ≡ rs
      → (rs ≡ []) ⊎ (is_some last ≡ true)
      → IsSoundReplay w
      → Holds IsFinished (closed_at_end s fills samples ids config rs last w)
  closed_at_end-Holds [] last w e seen h = (e, h)
  closed_at_end-Holds (r ∷ rs) none w e (inl empty) h = cc (empty)
  closed_at_end-Holds (r ∷ rs) none w e (inr seen) h = cc (seen)
  closed_at_end-Holds (r ∷ rs) (some (now, price)) w e seen h = force_close-Holds now price w h

  pub finish_replay-Holds :
      (w : Replay W)
      → IsSeen w
      → IsSoundReplay w
      → Holds IsFinished (finish_replay s fills samples ids config w)
  unfolding finish_replay
  finish_replay-Holds w seen h = closed_at_end-Holds w.open_positions w.last_seen w refl seen h
