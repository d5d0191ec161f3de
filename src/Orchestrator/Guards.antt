-- ===== src/Orchestrator/Guards.antt =====
-- orchestrator.py: what turns safe mode on, and the monitoring of open positions between decisions.
use Prim.Native.String.{◌++◌ as append}
use btc_bot.Prelude.{
  ℕ, suc, Bool, true, false, not, ◌&&◌, String, some, List, [], ◌∷◌, ◌++◌, ◌⊎◌, inl, inr, ltb, leb,
  if◌then◌else◌,
}
use btc_bot.Prelude.Double.{Double}
use btc_bot.Core.Models.{Time, BotState}
use btc_bot.Core.Funding.{RawSample}
use btc_bot.Storage.Tables.{Tables}
use btc_bot.Storage.Runtime.{Store, load, refresh_runtime_state}
use btc_bot.Storage.State.{set_safe_mode, get_open_trade_records}
use btc_bot.Orchestrator.World.{Settings, World, Feed}
use btc_bot.Orchestrator.Lifecycle.{process_trade_lifecycle}
use btc_bot.Orchestrator.Cycle.{is_safe_mode}

pub data KillReason : Type 0 where
  daily_dd weekly_dd consecutive_losses critical_execution_errors : KillReason

-- monitoring/health.py, `HealthStatus`
pub record HealthStatus : Type 0 where
  pub websocket_alive : Bool
  pub db_writable : Bool
  pub exchange_reachable : Bool

abbrev pub is_healthy : HealthStatus → Bool
is_healthy h = h.websocket_alive && h.db_writable && h.exchange_reachable

-- `";".join(reasons)`, with the text of each
abbrev pub joined : (KillReason → String) → List KillReason → String
joined text [] = ""
joined text (x ∷ []) = text x
joined text (x ∷ y ∷ xs) = append (text x) (append ";" (joined text (y ∷ xs)))

abbrev pub is_empty : List KillReason → Bool
is_empty [] = true
is_empty (x ∷ xs) = false

abbrev pub reason_if : Bool → KillReason → List KillReason
reason_if b r = if b then r ∷ [] else []

module _ {W : Type 0} ⦃d : Double W⦄ where
  open d use {lt}

  unfoldable pub activate_safe_mode : Store W → String → Time → Tables W → Tables W
  unfolding load set_safe_mode
  activate_safe_mode store reason now t =
      if is_safe_mode (load t) then t else (set_safe_mode store true (some reason) now t).1

  unfoldable pub kill_reasons : Settings W → BotState W → ℕ → List KillReason
  kill_reasons s state critical_errors =
      reason_if (lt s.risk.daily_dd_limit state.daily_dd_pct) KillReason.daily_dd
      ++ (reason_if (lt s.risk.weekly_dd_limit state.weekly_dd_pct) KillReason.weekly_dd
          ++ (reason_if (ltb s.risk.max_consecutive_losses state.consecutive_losses)
                KillReason.consecutive_losses
              ++ reason_if (ltb s.kill_switch_max_exec_errors critical_errors)
                  KillReason.critical_execution_errors))

  -- `text` formats a reason with its limit.
  unfoldable pub evaluate_kill_switch :
      Settings W → (KillReason → String) → Time → World W → World W
  unfolding refresh_runtime_state kill_reasons activate_safe_mode
  evaluate_kill_switch s text now w =
      let fresh = refresh_runtime_state s.store now w.tables in
      let reasons = kill_reasons s fresh.0 w.critical_execution_errors in
      let state = fresh.0 in
      record w {
        tables =
            if not (is_empty reasons) && not state.safe_mode
            then activate_safe_mode s.store (joined text reasons) now fresh.1
            else fresh.1;
      }

  unfoldable pub run_health_check : Settings W → HealthStatus → Time → World W → World W
  unfolding activate_safe_mode
  run_health_check s status now w =
      let failures = suc w.consecutive_health_failures in
      if is_healthy status then record w { consecutive_health_failures = 0 } else record w {
        consecutive_health_failures = failures;
        tables =
            if leb s.health_failures_before_safe_mode failures
            then activate_safe_mode s.store "health_check_failure_threshold" now w.tables
            else w.tables;
      }

  -- the `except` of `_start_data_feeds`
  unfoldable pub feed_start_failed : Settings W → String → Time → World W → World W
  unfolding set_safe_mode
  feed_start_failed s exc now w = record w {
    tables = (set_safe_mode s.store true (some (append "feed_start_failed:" exc)) now w.tables).1;
  }

  -- A snapshot that is not built, or an error of the lifecycle, is only reported.
  unfoldable pub run_position_monitor_cycle :
      Settings W → (String → Time → Time → List (RawSample W)) → String ⊎ Feed W → World W → World W
  unfolding get_open_trade_records process_trade_lifecycle
  run_position_monitor_cycle s funding_rates built w = elim (get_open_trade_records w.tables) [
    | [] ↦ w
    | r ∷ rs ↦ elim built [
      | inl exc ↦ w
      | inr feed ↦
          let life = process_trade_lifecycle s funding_rates feed w.tables in
          record w { tables = life.tables }
    ]
  ]
