-- ===== src/Backtest/Replayed.antt =====
-- backtest/backtest_runner.py, `run`: what holds of the replay of any list of snapshots.
use mathlib.Core.Path.{subst}
use btc_bot.Prelude.{◌≡◌, refl, arith, List, [], ◌∷◌, inr}
use btc_bot.Prelude.Double.{Double, IsOrdered}
use btc_bot.Core.Funding.{RawSample}
use btc_bot.Orchestrator.World.{Settings}
use btc_bot.Backtest.Fill.{FillModel}
use btc_bot.Backtest.Booked.{Holds, if_filled-Holds}
use btc_bot.Backtest.Runner.{ReplaySnapshot, Ids, BacktestConfig, Replay}
use btc_bot.Backtest.Run.{replay_bar, replay, start_replay}
use btc_bot.Backtest.Sound.{IsSoundReplay, replay_bar-IsSoundReplay}

module _ {W : Type 0} ⦃d : Double W⦄ (laws : IsOrdered W) (s : Settings W) (fills : FillModel W)
    (samples : List (RawSample W)) (ids : Ids) (config : BacktestConfig W) where
  replay-Holds :
      (snaps : List (ReplaySnapshot W)) (w : Replay W)
      → IsSoundReplay w
      → Holds IsSoundReplay (replay s fills samples ids config snaps w)
  unfolding replay
  replay-Holds [] w h = h
  replay-Holds (snap ∷ snaps) w h =
      if_filled-Holds IsSoundReplay IsSoundReplay (replay_bar s fills samples ids config snap w) _
        (replay_bar-IsSoundReplay laws s fills samples ids config snap w h)
        (λ w' h'. replay-Holds snaps w' h')

  pub start_replay-IsSoundReplay : IsSoundReplay (start_replay s fills samples ids config)
  start_replay-IsSoundReplay = (
    record { guarded = tt; closed = tt; same_events = refl; counted = omega (arith) },
    refl,
    refl,
  )

  -- Where a replay of snapshots refuses no fill and starts with sound books, its books are sound. An
  -- open position has its initial size and stop and no trailing stop, or a part of it is closed and
  -- its stop is the trailing stop, which is at the entry or on the side of it where the position
  -- gains. A closed trade has a closing time. The list of gains is that of the times and the gains of
  -- the closed trades, in their order. Open positions and closed trades together are no more than
  -- the trades that were opened, which each counter and the list of their times count alike.
  pub replay_keeps_sound :
      (snaps : List (ReplaySnapshot W)) (w w' : Replay W)
      → IsSoundReplay w
      → replay s fills samples ids config snaps w ≡ inr w'
      → IsSoundReplay w'
  replay_keeps_sound snaps w w' h e = subst (Holds IsSoundReplay) e (replay-Holds snaps w h)
