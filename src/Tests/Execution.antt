-- ===== src/Tests/Execution.antt =====
-- Examples for the paper execution engine.
use btc_bot.Prelude.{◌≡◌, ◌⊎◌, refl, none, some}
use btc_bot.Prelude.Fixed.{ℤ, fixed_double, fixed-IsOrdered}
use btc_bot.Execution.Paper.{Draw, Quotes, execute_signal, fill_at, fill_price, is_valid_bracket}
use btc_bot.Execution.Paper.Bracket.{IsRefused, IsFilled, execute_signal_outcome}
use btc_bot.Tests.Samples.{whole, signal}

abbrev pub draw : Draw
draw = record { position_id = "p"; execution_id = "e"; client_order_id = "c"; now = 0 }

abbrev quotes : Quotes ℤ
quotes = record {
  snapshot_price = some (whole 60_000);
  bid_price = some (whole 59_995);
  ask_price = some (whole 60_005);
  snapshot_id = none;
}

execute_signal_outcome_example :
    let o = execute_signal draw "BTCUSDT" quotes signal (whole 1) 5 in
    IsRefused fixed-IsOrdered o ⊎ IsFilled fixed-IsOrdered quotes signal (whole 1) 5 o
execute_signal_outcome_example =
    execute_signal_outcome fixed-IsOrdered draw "BTCUSDT" quotes signal (whole 1) 5

-- The sample signal is filled at the ask.
no_error : (execute_signal draw "BTCUSDT" quotes signal (whole 1) 5).error ≡ none
unfolding execute_signal fill_at fill_price is_valid_bracket
no_error = refl
