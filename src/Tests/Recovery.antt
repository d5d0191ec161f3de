-- ===== src/Tests/Recovery.antt =====
-- Examples for the start of the bot.
use btc_bot.Prelude.{◌≡◌, ◌↔◌, refl, true, false, not, ◌&&◌, some, List, [], ◌∷◌, Some}
use btc_bot.Prelude.Fixed.{ℤ, pos, fixed_double}
use btc_bot.Prelude.Sorting.{IsSorted, HasDistinctKeys}
use btc_bot.Core.Models.{hours}
use btc_bot.Storage.Tables.{Tables, no_rows}
use btc_bot.Storage.Trigger.{trigger_of}
use btc_bot.Storage.State.{set_safe_mode, mark_error}
use btc_bot.Storage.SafeMode.{view}
use btc_bot.Execution.Recovery.{
  Coordinator, ExchangeSync, ExchangePosition, ExchangeOrder, Issue, run_startup_sync, is_technical,
  validate_recovery_state, is_ours, is_bad_leverage, is_orphan, contains, exchange_keys, local_keys,
  rank, position_key, direction_text,
}
use btc_bot.Execution.Recovery.Startup.{
  IsSuspect, IsReported, run_startup_sync_safe_iff, mark_error-run_startup_sync,
}
use btc_bot.Execution.Recovery.Issues.{Reports, validate_recovery_state_iff}
use btc_bot.Tests.Samples.{whole, position}
use btc_bot.Tests.Storage.{store}

abbrev pub coordinator : Coordinator
coordinator = record {
  symbol = "BTCUSDT";
  max_allowed_leverage = 5;
  isolated_only = true;
  upper = λ s. s;
}

-- A position that is not stored, with a leverage that is too high, and an order without a position
abbrev there : List (ExchangePosition ℤ)
there =
    record {
      symbol = "BTCUSDT";
      direction = "SHORT";
      size = whole 1;
      leverage = pos 20;
      isolated = true;
    }
    ∷ []

abbrev orders : List ExchangeOrder
orders = record { symbol = "BTCUSDT"; order_id = "1"; side = "SELL"; position_side = "LONG" } ∷ []

abbrev guarded : Tables ℤ
guarded = (set_safe_mode store true (some "daily_dd>0.0300") (hours 11) no_rows).1

found_all :
    validate_recovery_state coordinator (position ∷ []) there orders
    ≡ Issue.leverage_mismatch ∷ Issue.orphan_orders ∷ Issue.phantom_position
      ∷ Issue.unknown_position ∷ []
unfolding validate_recovery_state is_bad_leverage position_key direction_text
found_all = refl

run_startup_sync_safe_iff_example :
    let r =
      run_startup_sync coordinator (ExchangeSync.answered there orders) store (hours 12) guarded in
    ((r.0.safe_mode ≡ true) ↔ IsSuspect coordinator (ExchangeSync.answered there orders) guarded)
    × IsReported r
run_startup_sync_safe_iff_example =
    run_startup_sync_safe_iff store coordinator (ExchangeSync.answered there orders) (hours 12)
      guarded

mark_error-run_startup_sync_example :
    let t = mark_error store "snapshot_build_failed: timeout" (hours 12) guarded in
    (run_startup_sync coordinator ExchangeSync.no_op store (hours 13) t).0.safe_mode
    ≡ ((view guarded).0 && not (is_technical (trigger_of (some "snapshot_build_failed: timeout"))))
mark_error-run_startup_sync_example =
    mark_error-run_startup_sync store coordinator "snapshot_build_failed: timeout" (hours 12)
      (hours 13) guarded

-- The safe mode of the drawdown is lost.
lost :
    ((view guarded).0 && not (is_technical (trigger_of (some "snapshot_build_failed: timeout"))))
    ≡ false
unfolding is_technical trigger_of set_safe_mode
lost = refl

validate_recovery_state_iff_example :
    let issues = validate_recovery_state coordinator (position ∷ []) there orders in
    let theirs = exchange_keys coordinator there in
    let ours = local_keys coordinator (position ∷ []) in
    (Reports issues Issue.isolated_mode_mismatch
      ↔ Some
          (λ p.
            (is_ours coordinator p ≡ true)
            × (coordinator.isolated_only ≡ true)
            × (p.isolated ≡ false))
          there)
    × (Reports issues Issue.leverage_mismatch
        ↔ Some
            (λ p.
              (is_ours coordinator p ≡ true)
              × (is_bad_leverage coordinator.max_allowed_leverage p.leverage ≡ true))
            there)
    × (Reports issues Issue.orphan_orders
        ↔ Some (λ o. is_orphan coordinator theirs o ≡ true) orders)
    × (Reports issues Issue.phantom_position ↔ Some (λ k. contains k theirs ≡ false) ours)
    × (Reports issues Issue.unknown_position ↔ Some (λ k. contains k ours ≡ false) theirs)
    × IsSorted rank issues
    × HasDistinctKeys rank issues
validate_recovery_state_iff_example =
    validate_recovery_state_iff coordinator (position ∷ []) there orders
