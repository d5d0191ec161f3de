-- ===== src/Backtest/Ended.antt =====
-- backtest/backtest_runner.py, `run`: the end of a replay, after which no position is open.
use mathlib.Core.Path.{subst}
use btc_bot.Prelude.{◌≡◌, refl, List, [], ◌∷◌, ◌⊎◌, inl, inr}
use btc_bot.Prelude.Double.{Double, IsOrdered}
use btc_bot.Core.Funding.{RawSample}
use btc_bot.Orchestrator.World.{Settings}
use btc_bot.Backtest.Fill.{FillModel, FillError}
use btc_bot.Backtest.Booked.{Holds, if_filled-Holds}
use btc_bot.Backtest.Runner.{ReplaySnapshot, Ids, BacktestConfig, Replay}
use btc_bot.Backtest.Run.{replay_bar, replay, start_replay, finish_replay, result_of, run}
use btc_bot.Backtest.Sound.{IsSoundReplay, replay_bar-IsSoundReplay}
use btc_bot.Backtest.Replayed.{start_replay-IsSoundReplay}
use btc_bot.Backtest.Finished.{IsSeen, IsFinished, finish_replay-Holds}
use btc_bot.Backtest.Seen.{HasSeen, replay_bar-HasSeen}

-- Both of what holds
both-Holds :
    {W A : Type 0} (P Q : A → Type 0) (x : FillError W ⊎ A)
    → Holds P x
    → Holds Q x
    → Holds (λ a. P a × Q a) x
both-Holds P Q (inl e) h k = tt
both-Holds P Q (inr a) h k = (h, k)

module _ {W : Type 0} ⦃d : Double W⦄ (laws : IsOrdered W) (s : Settings W) (fills : FillModel W)
    (samples : List (RawSample W)) (ids : Ids) (config : BacktestConfig W) where
  abbrev IsReady : Replay W → Type 0
  IsReady w = IsSeen s fills samples ids config w × IsSoundReplay w

  replay-IsReady :
      (snaps : List (ReplaySnapshot W)) (w : Replay W)
      → IsReady w
      → Holds IsReady (replay s fills samples ids config snaps w)
  unfolding replay
  replay-IsReady [] w h = h
  replay-IsReady (snap ∷ snaps) w h =
      if_filled-Holds (λ w'. HasSeen s fills samples ids config w' × IsSoundReplay w') IsReady
        (replay_bar s fills samples ids config snap w) _
        (both-Holds (HasSeen s fills samples ids config) IsSoundReplay
          (replay_bar s fills samples ids config snap w)
          (replay_bar-HasSeen s fills samples ids config snap w)
          (replay_bar-IsSoundReplay laws s fills samples ids config snap w h.1))
        (λ w' h'. replay-IsReady snaps w' (inr h'.0, h'.1))

  replay_ended :
      (snaps : List (ReplaySnapshot W)) (w : Replay W)
      → replay s fills samples ids config snaps (start_replay s fills samples ids config) ≡ inr w
      → IsReady w
  replay_ended snaps w e = subst (Holds IsReady) e (
      replay-IsReady snaps (start_replay s fills samples ids config)
        (inl refl, start_replay-IsSoundReplay laws s fills samples ids config))

  -- Where the replay of snapshots from the start and the force close after it refuse no fill, `run`
  -- gives the result of the replay after the force close. No position is open in it, and its books
  -- are sound: each closed trade has a closing time, the list of gains is that of the times and the
  -- gains of the closed trades, in their order, and closed trades are no more than the trades that
  -- were opened, which each counter and the list of their times count alike.
  pub run_closes_all :
      (snaps : List (ReplaySnapshot W)) (w w' : Replay W)
      → replay s fills samples ids config snaps (start_replay s fills samples ids config) ≡ inr w
      → finish_replay s fills samples ids config w ≡ inr w'
      → (run s fills samples ids config snaps ≡ inr (result_of s fills samples ids config w'))
        × (w'.open_positions ≡ [])
        × IsSoundReplay w'
  unfolding run
  run_closes_all snaps w w' e e' =
      let ready = replay_ended snaps w e in
      let end =
        subst (Holds (IsFinished s fills samples ids config)) e'
          (finish_replay-Holds s fills samples ids config w ready.0 ready.1) in
      (rw (run, e, e') refl, end.0, end.1)
