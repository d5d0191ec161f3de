-- ===== src/Execution/Recovery.antt =====
-- execution/recovery.py: what the bot finds when it starts. `upper` is `str.upper`, the clock is an
-- argument, and what the exchange answers is a parameter.
pub mod Startup
mod Found
pub mod Issues
use Prim.Native.String.{◌++◌ as append}
use text.Mathlib.Text.{◌==◌}
use btc_bot.Prelude.{
  ℕ, Bool, true, false, not, ◌&&◌, ◌||◌, String, Option, none, some, List, [], ◌∷◌, ◌++◌, map, keep,
  any, ltb, if◌then◌else◌,
}
use btc_bot.Prelude.Double.{Double}
use btc_bot.Prelude.Fixed.{ℤ, pos, negsuc}
use btc_bot.Prelude.Tails.{concat}
use btc_bot.Core.Models.{Time, Direction, Position, BotState}
use btc_bot.Storage.Tables.{Tables}
use btc_bot.Storage.Trigger.{trigger_of}
use btc_bot.Storage.Runtime.{Store, ensure_initialized, load}
use btc_bot.Storage.State.{set_safe_mode, get_open_positions_snapshot}

pub data Issue : Type 0 where
  exchange_sync_failed : String → Issue
  isolated_mode_mismatch leverage_mismatch orphan_orders phantom_position unknown_position : Issue

unfoldable pub issue_text : Issue → String
issue_text (Issue.exchange_sync_failed exc) = append "exchange_sync_failed:" exc
issue_text Issue.isolated_mode_mismatch = "isolated_mode_mismatch"
issue_text Issue.leverage_mismatch = "leverage_mismatch"
issue_text Issue.orphan_orders = "orphan_orders"
issue_text Issue.phantom_position = "phantom_position"
issue_text Issue.unknown_position = "unknown_position"

pub record RecoveryReport : Type 0 where
  pub healthy : Bool
  pub safe_mode : Bool
  pub issues : List Issue

pub record ExchangePosition (W : Type 0) : Type 0 where
  pub symbol : String
  pub direction : String
  pub size : W
  pub leverage : ℤ
  pub isolated : Bool

pub record ExchangeOrder : Type 0 where
  pub symbol : String
  pub order_id : String
  pub side : String
  pub position_side : String

-- What the sync source is and answers: no exchange, an exception, or positions and orders.
pub data ExchangeSync (W : Type 0) : Type 0 where
  no_op : ExchangeSync W
  failed : String → ExchangeSync W
  answered : List (ExchangePosition W) → List ExchangeOrder → ExchangeSync W

pub record Coordinator : Type 0 where
  pub symbol : String
  pub max_allowed_leverage : ℕ
  pub isolated_only : Bool
  pub upper : String → String

abbrev pub contains : String → List String → Bool
contains s = any (λ x. x == s)

abbrev technical_triggers : List String
technical_triggers =
    "snapshot_build_failed" ∷ "health_check_failure_threshold" ∷ "feed_start_failed"
    ∷ "exchange_sync_failed" ∷ []

unfoldable pub is_technical : String → Bool
is_technical trigger = contains trigger technical_triggers

unfoldable pub direction_text : Direction → String
direction_text Direction.long = "LONG"
direction_text Direction.short = "SHORT"

-- `self.symbol` is `symbol.upper()`.
abbrev pub own_symbol : Coordinator → String
own_symbol c = c.upper c.symbol

unfoldable pub position_key : Coordinator → String → String → String
position_key c symbol direction = append (c.upper symbol) (append ":" (c.upper direction))

-- `leverage <= 0 or leverage > max_allowed_leverage`
unfoldable pub is_bad_leverage : ℕ → ℤ → Bool
is_bad_leverage most (pos n) = ltb n 1 || ltb most n
is_bad_leverage most (negsuc n) = true

-- a set difference that is not empty
abbrev pub has_other : List String → List String → Bool
has_other xs ys = any (λ x. not (contains x ys)) xs

abbrev is_empty : List String → Bool
is_empty [] = true
is_empty (x ∷ xs) = false

module _ {W : Type 0} where
  abbrev pub is_ours : Coordinator → ExchangePosition W → Bool
  is_ours c p = p.symbol == own_symbol c

  abbrev pub exchange_keys : Coordinator → List (ExchangePosition W) → List String
  exchange_keys c ps = map (λ p. position_key c p.symbol p.direction) (keep (is_ours c) ps)

  abbrev pub local_keys : Coordinator → List (Position W) → List String
  local_keys c ps =
      map (λ p. position_key c p.symbol (direction_text p.direction))
        (keep (λ p. c.upper p.symbol == own_symbol c) ps)

  -- the issues of one position of the exchange
  abbrev pub position_issues : Coordinator → ExchangePosition W → List Issue
  position_issues c p =
      (if c.isolated_only && not p.isolated then Issue.isolated_mode_mismatch ∷ [] else [])
      ++ (if is_bad_leverage c.max_allowed_leverage p.leverage
          then Issue.leverage_mismatch ∷ []
          else [])

abbrev pub is_orphan : Coordinator → List String → ExchangeOrder → Bool
is_orphan c keys o =
    (o.symbol == own_symbol c)
    && (if (o.position_side == "LONG") || (o.position_side == "SHORT")
        then not (contains (position_key c o.symbol o.position_side) keys)
        else is_empty keys)

-- the loop over the orders, which stops at the first orphan
unfoldable pub orphan_found : Coordinator → List String → List ExchangeOrder → Bool
orphan_found c keys [] = false
orphan_found c keys (o ∷ os) =
    let rest = orphan_found c keys os in if is_orphan c keys o then true else rest

-- the rank of an issue's name in the alphabet
abbrev pub rank : Issue → ℕ
rank (Issue.exchange_sync_failed exc) = 0
rank Issue.isolated_mode_mismatch = 1
rank Issue.leverage_mismatch = 2
rank Issue.orphan_orders = 3
rank Issue.phantom_position = 4
rank Issue.unknown_position = 5

abbrev pub is_issue : Issue → Issue → Bool
is_issue x y = not (ltb (rank x) (rank y)) && not (ltb (rank y) (rank x))

abbrev alphabet : List Issue
alphabet =
    Issue.isolated_mode_mismatch ∷ Issue.leverage_mismatch ∷ Issue.orphan_orders
    ∷ Issue.phantom_position ∷ Issue.unknown_position ∷ []

-- `sorted(set(issues))`: the names that occur, in the order of the alphabet
unfoldable pub sorted_set : List Issue → List Issue
sorted_set issues = keep (λ i. any (is_issue i) issues) alphabet

-- `",".join(issues)`
abbrev joined : List Issue → String
joined [] = ""
joined (x ∷ []) = issue_text x
joined (x ∷ y ∷ xs) = append (issue_text x) (append "," (joined (y ∷ xs)))

module _ {W : Type 0} where
  unfoldable pub found_issues :
      Coordinator → List (Position W) → List (ExchangePosition W) → List ExchangeOrder → List Issue
  unfolding orphan_found
  found_issues c local_positions exchange_positions exchange_orders =
      let theirs = exchange_keys c exchange_positions in
      let ours = local_keys c local_positions in
      concat (map (position_issues c) (keep (is_ours c) exchange_positions))
      ++ ((if has_other theirs ours then Issue.unknown_position ∷ [] else [])
          ++ ((if has_other ours theirs then Issue.phantom_position ∷ [] else [])
              ++ (if orphan_found c theirs exchange_orders then Issue.orphan_orders ∷ [] else [])))

  unfoldable pub validate_recovery_state :
      Coordinator → List (Position W) → List (ExchangePosition W) → List ExchangeOrder → List Issue
  unfolding found_issues sorted_set
  validate_recovery_state c local_positions exchange_positions exchange_orders =
      sorted_set (found_issues c local_positions exchange_positions exchange_orders)

abbrev report_of : Bool → List Issue → RecoveryReport
report_of safe issues = record { healthy = not safe; safe_mode = safe; issues = issues }

module _ {W : Type 0} where
  -- `last_state and last_state.safe_mode`, and its error
  abbrev pub was_safe : Option (BotState W) → Bool
  was_safe none = false
  was_safe (some s) = s.safe_mode

  abbrev pub last_error_of : Option (BotState W) → Option String
  last_error_of none = none
  last_error_of (some s) = s.last_error

module _ {W : Type 0} ⦃d : Double W⦄ where
  -- `set_safe_mode` and the report
  abbrev finish :
      Store W → Time → Tables W → Bool → Option String → List Issue → RecoveryReport × Tables W
  finish store now t safe reason issues =
      (report_of safe issues, (set_safe_mode store safe reason now t).1)

  unfoldable pub start_paper :
      Store W → Time → Option (BotState W) → Tables W → RecoveryReport × Tables W
  unfolding is_technical trigger_of set_safe_mode
  start_paper store now last_state t =
      let reason = last_error_of last_state in
      if was_safe last_state && not (is_technical (trigger_of reason))
      then finish store now t true reason []
      else finish store now t false none []

  abbrev pub conclude : Store W → Time → Tables W → List Issue → RecoveryReport × Tables W
  conclude store now t [] = finish store now t false none []
  conclude store now t (x ∷ xs) =
      finish store now t true (some (append "recovery_inconsistency:" (joined (x ∷ xs)))) (x ∷ xs)

  unfoldable pub run_startup_sync :
      Coordinator → ExchangeSync W → Store W → Time → Tables W → RecoveryReport × Tables W
  unfolding start_paper validate_recovery_state ensure_initialized load set_safe_mode
      get_open_positions_snapshot issue_text
  run_startup_sync c sync store now t =
      let t1 = (ensure_initialized store t).1 in
      elim sync [
        | ExchangeSync.no_op ↦ start_paper store now (load t1) t1
        | ExchangeSync.failed exc ↦
            let issue = Issue.exchange_sync_failed exc in
            finish store now t1 true (some (issue_text issue)) (issue ∷ [])
        | ExchangeSync.answered positions orders ↦
            conclude store now t1
              (validate_recovery_state c (get_open_positions_snapshot t1) positions orders)
      ]
