-- ===== src/Core/Governance/Gates.antt =====
-- The gates of `GovernanceLayer.evaluate`: when it approves, and what it leaves of the deque.
use btc_bot.Prelude.{
  ℕ, ◌+◌, ◌≤◌, ◌<◌, ◌≡◌, refl, true, false, List, [], ◌∷◌, inl, inr, arith, leb, any, is_some, All,
  Bool-cases, ◌&&◌, ◌↔◌, Option, some, none, ◌⊎◌, not,
}
use btc_bot.Prelude.Double.{Double, IsOrdered, IsNumber, ◌≺◌}
use btc_bot.Core.Models.{Time, hours, minutes, hour_of, SignalCandidate, GovernanceRuntimeState}
use btc_bot.Core.Governance.{
  Levels, is_near, GovernanceConfig, evaluate, check_duplicate, cooldown_left, is_within_session,
  is_in_no_trade_window, is_duplicate_level, drop_stale,
}
use btc_bot.Core.Governance.Window.{
  IsChronological, IsPast, AreApart, IsSound, is_duplicate_level_iff, drop_stale-IsSound,
  push_level-IsSound, any_near_false, All-drop_stale, All-push_level,
}

-- `h` lies in no window, ends included.
abbrev pub IsOutside : ℕ → List (ℕ × ℕ) → Type 0
IsOutside h = All (λ w. (h < w.0) ⊎ (w.1 < h))

any_window_iff :
    (h : ℕ) (ws : List (ℕ × ℕ)) → (any (λ w. leb w.0 h && leb h w.1) ws ≡ false) ↔ IsOutside h ws
any_window_iff h [] = (λ _. tt, λ _. refl)
any_window_iff h (w ∷ ws) = (
  λ e. (ground arith, (any_window_iff h ws).0 (ground arith)),
  λ o. ground (arith, o.0, (any_window_iff h ws).1 o.1),
)

module _ {W : Type 0} ⦃d : Double W⦄ where
  -- What a candidate must meet to be approved, said without the code's tests.
  pub record IsAdmissible (c : GovernanceConfig W) (state : GovernanceRuntimeState W)
      (candidate : SignalCandidate W) (levels : Levels W) : Type 0 where
    pub daily_below : state.daily_dd_pct ≺ c.daily_dd_limit
    pub weekly_below : state.weekly_dd_pct ≺ c.weekly_dd_limit
    pub losses_below : state.consecutive_losses < c.max_consecutive_losses
    pub trades_below : state.trades_today < c.max_trades_per_day
    pub after_start : c.session_start_hour_utc ≤ hour_of candidate.timestamp
    pub before_end : hour_of candidate.timestamp ≤ c.session_end_hour_utc
    pub outside_windows : IsOutside (hour_of candidate.timestamp) c.no_trade_windows_utc
    pub rested :
        (loss : Time)
        → state.last_loss_at ≡ some loss
        → loss + minutes c.cooldown_minutes_after_loss ≤ candidate.timestamp
    pub apart : All (λ e. AreApart c e (candidate.timestamp, candidate.entry_reference)) levels

module _ {W : Type 0} ⦃d : Double W⦄ where
  cooldown_left_iff :
      (c : GovernanceConfig W) (last : Option Time) (now : Time)
      → (cooldown_left c last now ≡ none)
        ↔ ((loss : Time) → last ≡ some loss → loss + minutes c.cooldown_minutes_after_loss ≤ now)
  unfolding cooldown_left
  cooldown_left_iff c none now = (λ _ loss e. cc, λ _. refl)
  cooldown_left_iff c (some loss) now = (λ e l q. ground arith, λ k. ground (arith, k loss refl))

  check_duplicate_approved :
      (c : GovernanceConfig W) (x : SignalCandidate W) (levels : Levels W)
      → (check_duplicate c x levels).0.approved
        ≡ not (is_duplicate_level c x.entry_reference x.timestamp levels).0
  unfolding check_duplicate
  check_duplicate_approved c x levels = ground arith

  -- The answer as one conjunction of the gates.
  evaluate-approved :
      (c : GovernanceConfig W) (state : GovernanceRuntimeState W) (x : SignalCandidate W)
      (levels : Levels W)
      → (evaluate c state x levels).0.approved ≡ (
          not (d.le c.daily_dd_limit state.daily_dd_pct)
          && not (d.le c.weekly_dd_limit state.weekly_dd_pct)
          && not (leb c.max_consecutive_losses state.consecutive_losses)
          && not (leb c.max_trades_per_day state.trades_today)
          && is_within_session c x.timestamp
          && not (is_in_no_trade_window c x.timestamp)
          && not (is_some (cooldown_left c state.last_loss_at x.timestamp))
          && not (is_duplicate_level c x.entry_reference x.timestamp levels).0)
  unfolding evaluate
  evaluate-approved c state x levels = ground (arith, check_duplicate_approved c x levels)

  within_session_iff :
      (c : GovernanceConfig W) (now : Time)
      → (is_within_session c now ≡ true)
        ↔ ((c.session_start_hour_utc ≤ hour_of now) × (hour_of now ≤ c.session_end_hour_utc))
  unfolding is_within_session
  within_session_iff c now = ground arith

  no_trade_window_iff :
      (c : GovernanceConfig W) (now : Time)
      → (is_in_no_trade_window c now ≡ false) ↔ IsOutside (hour_of now) c.no_trade_windows_utc
  unfolding is_in_no_trade_window
  no_trade_window_iff c now = any_window_iff (hour_of now) c.no_trade_windows_utc

  -- For drawdowns that are numbers and a deque in chronological order, `evaluate` approves exactly
  -- the admissible candidates: both drawdowns and both counts below their limits, the hour inside
  -- the session and outside every no-trade window, the cooldown after the last loss over, and the
  -- entry apart from every level that was accepted within the window.
  pub evaluate_approves_iff :
      (laws : IsOrdered W) (c : GovernanceConfig W) (state : GovernanceRuntimeState W)
      (x : SignalCandidate W) (levels : Levels W)
      → IsNumber state.daily_dd_pct
      → IsNumber state.weekly_dd_pct
      → IsNumber c.daily_dd_limit
      → IsNumber c.weekly_dd_limit
      → IsChronological levels
      → ((evaluate c state x levels).0.approved ≡ true) ↔ IsAdmissible c state x levels
  evaluate_approves_iff laws c state x levels n1 n2 n3 n4 h =
      let e = evaluate-approved c state x levels in
      let daily = laws.lt-eq-not-le state.daily_dd_pct c.daily_dd_limit n1 n3 in
      let weekly = laws.lt-eq-not-le state.weekly_dd_pct c.weekly_dd_limit n2 n4 in
      let session = within_session_iff c x.timestamp in
      let window = no_trade_window_iff c x.timestamp in
      let cooldown = cooldown_left_iff c state.last_loss_at x.timestamp in
      let level = is_duplicate_level_iff c x.entry_reference x.timestamp levels h in
      (
        λ approval. record {
          daily_below = ground (arith, e, daily);
          weekly_below = ground (arith, e, weekly);
          losses_below = ground (arith, e);
          trades_below = ground (arith, e);
          after_start = (session.0 (ground (arith, e))).0;
          before_end = (session.0 (ground (arith, e))).1;
          outside_windows = window.0 (ground (arith, e));
          rested = cooldown.0 (ground (arith, e));
          apart = level.0 (ground (arith, e));
        },
        λ a. rw e (
            ground (
              arith,
              daily,
              weekly,
              session.1 (a.after_start, a.before_end),
              window.1 a.outside_windows,
              cooldown.1 a.rested,
              level.1 a.apart,
              a.daily_below,
              a.weekly_below,
              a.losses_below,
              a.trades_below,
            )),
      )

  -- `evaluate` either stops at a gate before the scan, and leaves the deque alone, or is the scan.
  pub evaluate_outcome :
      (c : GovernanceConfig W) (state : GovernanceRuntimeState W) (x : SignalCandidate W)
      (levels : Levels W)
      → (((evaluate c state x levels).0.approved ≡ false)
          × ((evaluate c state x levels).1 ≡ levels))
        ⊎ (evaluate c state x levels ≡ check_duplicate c x levels)
  unfolding evaluate
  evaluate_outcome c state x levels = ground arith

  check_duplicate-IsSound :
      (c : GovernanceConfig W) (x : SignalCandidate W) (levels : Levels W)
      → IsSound c levels
      → IsPast x.timestamp levels
      → IsSound c (check_duplicate c x levels).1 × IsPast x.timestamp (check_duplicate c x levels).1
  unfolding check_duplicate
  check_duplicate-IsSound c x levels s p =
      let now = x.timestamp in
      let entry = x.entry_reference in
      let window = hours c.duplicate_level_window_hours in
      let recent = drop_stale window now levels in
      let sound = drop_stale-IsSound c window now levels s in
      let past = All-drop_stale (λ e. e.0 ≤ now) window now levels p in
      elim (Bool-cases (any (λ e. is_near c.duplicate_level_tolerance_pct entry e.1) recent)) [
        | inl near ↦ rw near (sound, past)
        | inr apart ↦ rw apart (
          push_level-IsSound c recent (now, entry) sound past
              (any_near_false c entry now recent apart),
          All-push_level (λ e. e.0 ≤ now) recent (now, entry) past (omega arith),
        )
      ]

  -- `evaluate` keeps the deque in order, spaced and within its bound, if no accepted level is later
  -- than the candidate: no two levels that are still in the deque and were accepted within one
  -- window of each other are near. Of levels that have left it nothing is said.
  pub evaluate-IsSound :
      (c : GovernanceConfig W) (state : GovernanceRuntimeState W) (x : SignalCandidate W)
      (levels : Levels W)
      → IsSound c levels
      → IsPast x.timestamp levels
      → IsSound c (evaluate c state x levels).1 × IsPast x.timestamp (evaluate c state x levels).1
  evaluate-IsSound c state x levels s p = elim (evaluate_outcome c state x levels) [
    | inl (_, same) ↦ rw same (s, p)
    | inr scan ↦ rw scan (check_duplicate-IsSound c x levels s p)
  ]
