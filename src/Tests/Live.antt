-- ===== src/Tests/Live.antt =====
-- Examples for the order manager and the live execution engine, with an exchange that fills an order
-- when the clock is at 3.
use btc_bot.Prelude.{
  ◌≡◌, refl, ℕ, suc, String, none, some, [], ◌∷◌, ◌⊎◌, inr, leb, if◌then◌else◌, true, false, arith,
}
use btc_bot.Prelude.Fixed.{ℤ, fixed_double}
use btc_bot.Execution.Orders.{
  OrderRequest, OrderPayload, Exchange, Manager, get_order, amended_order, amend, cancel,
}
use btc_bot.Execution.Orders.Amend.{
  Call, calls, new_manager, IsLeft, IsNotCanceled, IsReplaced, amend_sends,
}
use btc_bot.Execution.Live.{LiveSettings, LiveDraw}
use btc_bot.Execution.Live.Poll.{wait_for_entry_fill}
use btc_bot.Execution.Live.Execute.{LiveOutcome, enter, execute_live, build_entry_order}
use btc_bot.Execution.Live.Deadline.{IsClock, IsEnded, wait_for_entry_fill_ends}
use btc_bot.Execution.Live.Outcome.{IsRefused, IsEntered, execute_live_outcome}
use btc_bot.Execution.Live.Poll.{set_leverage, send, wait_loop, poll_round, fetch_order, conclude}
use btc_bot.Execution.Orders.{
  submit, normalize_request, build_submit_params, register, drop_order, pop_order, set_order,
  to_order_error,
}
use btc_bot.Execution.Live.{payload_to_fill_event, map_status, exit_side}
use btc_bot.Execution.Live.Execute.{
  protected, entry_writes, live_position, protect, protective_order, protective_writes,
  snapshot_order_event, entered,
}
use btc_bot.Execution.Paper.{side_of}
use btc_bot.Tests.Samples.{whole, signal}

abbrev order_at : ℕ → OrderPayload ℤ
order_at now = record {
  status = some (if leb 3 now then "FILLED" else "NEW");
  executed_qty = some (whole 1);
  orig_qty = some (whole 1);
  avg_price = some (whole 60_000);
  commission = none;
  client_order_id = none;
  side = none;
  update_time = some now;
}

abbrev exchange : Exchange ℤ ℕ
exchange = record {
  post_leverage = λ symbol leverage x. (none, x);
  post_order = λ params x. (inr none, x);
  delete_order = λ symbol id x. (none, x);
  get_order = λ symbol id x. (inr (some (order_at x)), x);
  monotonic = λ x. x;
  now = λ x. x;
  new_id = λ x. "id";
  sleep = λ x. suc x;
}

exchange-IsClock : IsClock exchange
exchange-IsClock = record { never_back = λ symbol id x. omega arith; sleeps = λ x. omega arith }

abbrev same : String → String
same s = s

abbrev exact : ℤ → ℤ
exact x = x

abbrev live_settings : LiveSettings
live_settings = record {
  symbol = "BTCUSDT";
  is_market = false;
  entry_timeout = 90;
  is_polling = true;
}

abbrev live_draw : LiveDraw
live_draw = record {
  position_id = "p";
  entry_order_id = "e";
  stop_order_id = "sl";
  tp_order_id = "tp";
}

abbrev manager : Manager ℤ ℕ
manager = record { submitted_orders = []; outside = 0 }

abbrev limit_order : OrderRequest ℤ
limit_order = build_entry_order live_settings live_draw signal (whole 1)

amend_sends_example :
    let m =
      calls exchange same "BTCUSDT"
        (Call.submit_call limit_order ∷ [])
        (new_manager exchange same "BTCUSDT" 0) in
    let c = cancel exchange same "BTCUSDT" "e" m in
    let r = amend exchange same "BTCUSDT" "e" (some (whole 2)) none m in
    IsLeft exchange same "BTCUSDT" (some (whole 2)) none m r
    ⊎ (IsNotCanceled exchange same "BTCUSDT" c r
        ⊎ ((existing : OrderRequest ℤ) × (get_order "e" m.submitted_orders ≡ some existing)
            × IsReplaced exchange same "BTCUSDT"
                (amended_order existing (some (whole 2)) none)
                c
                r))
amend_sends_example =
    amend_sends exchange same "BTCUSDT" (Call.submit_call limit_order ∷ []) 0 "e" (some (whole 2))
      none refl

wait_for_entry_fill_ends_example :
    IsEnded exchange same exact live_settings
      (wait_for_entry_fill exchange same exact live_settings "e" limit_order manager).0
wait_for_entry_fill_ends_example =
    wait_for_entry_fill_ends exchange same exact live_settings exchange-IsClock "e" limit_order
      manager refl

execute_live_outcome_example :
    let o = execute_live exchange same exact live_settings live_draw signal (whole 1) 5 manager in
    IsRefused exchange same exact live_settings live_draw signal (whole 1) 5 o
    ⊎ IsEntered exchange same exact live_settings live_draw signal
        (whole 1)
        5
        (enter exchange same exact live_settings live_draw signal (whole 1) 5 manager)
        o
execute_live_outcome_example =
    execute_live_outcome exchange same exact live_settings live_draw signal (whole 1) 5
      exchange-IsClock manager refl

abbrev finished : LiveOutcome ℤ ℕ
finished = execute_live exchange same exact live_settings live_draw signal (whole 1) 5 manager

-- The sample signal is filled and protected.
no_live_error :
    (execute_live exchange same exact live_settings live_draw signal (whole 1) 5 manager).error
    ≡ none
unfolding execute_live entered enter set_leverage send submit normalize_request build_entry_order
    build_submit_params register wait_for_entry_fill wait_loop poll_round fetch_order conclude
    payload_to_fill_event map_status protected entry_writes live_position protect protective_order
    protective_writes snapshot_order_event exit_side cancel drop_order pop_order set_order
    to_order_error side_of
no_live_error = refl
