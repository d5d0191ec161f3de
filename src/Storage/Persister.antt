-- ===== src/Storage/Persister.antt =====
-- storage/position_persister.py: the writes of an execution engine, on the tables.
use btc_bot.Prelude.{String, List, [], ◌∷◌, ◌++◌}
use btc_bot.Execution.Paper.{OrderType, FillEvent, Write}
use btc_bot.Storage.Tables.{Tables}
use btc_bot.Storage.Queries.{insert_position}

module _ {W : Type 0} where
  unfoldable pub insert_execution_fill_event :
      String → OrderType → FillEvent W → Tables W → Tables W
  insert_execution_fill_event position_id order_type fill t = record t {
    executions = t.executions ++ ((position_id, order_type, fill) ∷ []);
  }

  unfoldable pub apply_write : Write W → Tables W → Tables W
  unfolding insert_position insert_execution_fill_event
  apply_write (Write.insert_position p) t = insert_position p t
  apply_write (Write.insert_execution_fill_event position_id order_type fill) t =
      insert_execution_fill_event position_id order_type fill t
  apply_write Write.commit t = t

  unfoldable pub apply_writes : List (Write W) → Tables W → Tables W
  unfolding apply_write
  apply_writes [] t = t
  apply_writes (w ∷ ws) t = apply_writes ws (apply_write w t)
