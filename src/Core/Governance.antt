-- ===== src/Core/Governance.antt =====
-- core/governance.py: `GovernanceLayer`. The layer's state is the deque of accepted levels; its
-- `state_provider` is the argument `state`. A `timedelta` from the config is not negative.
pub mod Window
pub mod Gates
use btc_bot.Prelude.{
  ℕ, ◌+◌, ◌-◌, ◌/◌, Option, none, some, List, [], ◌∷◌, ◌++◌, Bool, true, false, not, ◌&&◌, ltb, leb,
  ◌==◌, if◌then◌else◌, any, length,
}
use btc_bot.Prelude.Double.{Double, max, nought}
use btc_bot.Core.Models.{
  Time, Direction, second, minutes, hours, hour_of, SignalCandidate, GovernanceRuntimeState,
  GovernanceNote, ExecutableSignal,
}

pub record GovernanceDecision (W : Type 0) : Type 0 where
  pub approved : Bool
  pub notes : List (GovernanceNote W)

pub record GovernanceConfig (W : Type 0) : Type 0 where
  pub cooldown_minutes_after_loss : ℕ
  pub duplicate_level_tolerance_pct : W
  pub duplicate_level_window_hours : ℕ
  pub max_trades_per_day : ℕ
  pub max_consecutive_losses : ℕ
  pub daily_dd_limit : W
  pub weekly_dd_limit : W
  pub session_start_hour_utc : ℕ
  pub session_end_hour_utc : ℕ
  pub no_trade_windows_utc : List (ℕ × ℕ)

-- `_accepted_levels`, oldest first
abbrev pub Levels : Type 0 → Type 0
Levels W = List (Time × W)

-- `deque(maxlen=200)`: an append to a full deque drops the oldest entry.
abbrev pub max_levels : ℕ
max_levels = 200

module _ {W : Type 0} where
  unfoldable pub push_level : Levels W → Time × W → Levels W
  push_level [] e = e ∷ []
  push_level (x ∷ xs) e =
      if leb max_levels (length (x ∷ xs)) then xs ++ (e ∷ []) else (x ∷ xs) ++ (e ∷ [])

  -- `while levels and levels[0][0] < now - window: levels.popleft()`
  unfoldable pub drop_stale : ℕ → Time → Levels W → Levels W
  drop_stale window now [] = []
  drop_stale window now (e ∷ es) =
      if ltb (e.0 + window) now then drop_stale window now es else e ∷ es

  unfoldable pub is_within_session : GovernanceConfig W → Time → Bool
  is_within_session c now =
      let hour = hour_of now in leb c.session_start_hour_utc hour && leb hour c.session_end_hour_utc

  unfoldable pub is_in_no_trade_window : GovernanceConfig W → Time → Bool
  is_in_no_trade_window c now =
      let hour = hour_of now in any (λ w. leb w.0 hour && leb hour w.1) c.no_trade_windows_utc

module _ {W : Type 0} ⦃d : Double W⦄ where
  open d use {abs, sub, div, le, lt, lit}

  -- the test of one entry in the loop of `_is_duplicate_level`
  unfoldable pub is_near : W → W → W → Bool
  is_near tolerance entry existing =
      let baseline = max (abs existing) (lit 1 9) in
      le (div (abs (sub entry existing)) baseline) tolerance

  -- the answer, with the deque after the stale entries are gone
  unfoldable pub is_duplicate_level : GovernanceConfig W → W → Time → Levels W → Bool × Levels W
  is_duplicate_level c entry now levels =
      let recent = drop_stale (hours c.duplicate_level_window_hours) now levels in
      (any (λ e. is_near c.duplicate_level_tolerance_pct entry e.1) recent, recent)

  abbrev reject : GovernanceNote W → Levels W → GovernanceDecision W × Levels W
  reject note levels = (record { approved = false; notes = note ∷ [] }, levels)

  -- the last test of `evaluate`, and the acceptance
  unfoldable pub check_duplicate :
      GovernanceConfig W → SignalCandidate W → Levels W → GovernanceDecision W × Levels W
  unfolding is_duplicate_level push_level
  check_duplicate c candidate levels =
      let now = candidate.timestamp in
      let (duplicate, recent) = is_duplicate_level c candidate.entry_reference now levels in
      if duplicate then reject GovernanceNote.duplicate_level recent else (
        record { approved = true; notes = GovernanceNote.governance_pass ∷ [] },
        push_level recent (now, candidate.entry_reference),
      )

  -- the cooldown test of `evaluate`: the seconds that are left
  unfoldable pub cooldown_left : GovernanceConfig W → Option Time → Time → Option ℕ
  cooldown_left c none now = none
  cooldown_left c (some loss) now =
      let until = loss + minutes c.cooldown_minutes_after_loss in
      if ltb now until then some ((until - now) / second) else none

  unfoldable pub evaluate :
      GovernanceConfig W
      → GovernanceRuntimeState W
      → SignalCandidate W
      → Levels W
      → GovernanceDecision W × Levels W
  evaluate c state candidate levels =
      let now = candidate.timestamp in
      let checked = check_duplicate c candidate levels in
      let rested : GovernanceDecision W × Levels W = elim (cooldown_left c state.last_loss_at now) [
        | some left ↦ reject (GovernanceNote.cooldown_after_loss left) levels
        | none ↦ checked
      ] in
      if le c.daily_dd_limit state.daily_dd_pct
      then reject (GovernanceNote.daily_dd_exceeded state.daily_dd_pct) levels
      else if le c.weekly_dd_limit state.weekly_dd_pct
      then reject (GovernanceNote.weekly_dd_exceeded state.weekly_dd_pct) levels
      else if leb c.max_consecutive_losses state.consecutive_losses
      then reject (GovernanceNote.consecutive_losses_limit state.consecutive_losses) levels
      else if leb c.max_trades_per_day state.trades_today
      then reject (GovernanceNote.max_trades_per_day state.trades_today) levels
      else if not (is_within_session c now)
      then reject GovernanceNote.session_gated levels
      else if is_in_no_trade_window c now
      then reject GovernanceNote.no_trade_window levels
      else rested

  unfoldable pub compute_rr : Direction → W → W → W → W
  compute_rr direction entry stop take_profit =
      let risk = abs (sub entry stop) in
      if le risk nought
      then nought
      else let reward : W = elim direction [
        | Direction.long ↦ sub take_profit entry
        | Direction.short ↦ sub entry take_profit
      ] in
        if d.eq risk nought then nought else div reward risk

  -- `none` is the ValueError
  unfoldable pub to_executable :
      SignalCandidate W → GovernanceDecision W → Option (ExecutableSignal W)
  unfolding compute_rr
  to_executable candidate decision =
      if not decision.approved
      then none
      else some (record {
        signal_id = candidate.signal_id;
        timestamp = candidate.timestamp;
        direction = candidate.direction;
        entry_price = candidate.entry_reference;
        stop_loss = candidate.invalidation_level;
        take_profit_1 = candidate.tp_reference_1;
        take_profit_2 = candidate.tp_reference_2;
        rr_ratio =
            compute_rr candidate.direction candidate.entry_reference candidate.invalidation_level
              candidate.tp_reference_1;
        approved_by_governance = true;
        governance_notes = decision.notes;
      })
