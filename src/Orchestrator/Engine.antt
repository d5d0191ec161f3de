-- ===== src/Orchestrator/Engine.antt =====
-- execution/execution_engine.py with PaperExecutionEngine: the paper engine over its persister.
use btc_bot.Prelude.{refl, ℕ, String, Option, none, some, List, [], ◌∷◌}
use btc_bot.Prelude.Double.{Double}
use btc_bot.Core.Models.{ExecutableSignal}
use btc_bot.Execution.Paper.{Draw, Quotes, PaperError, Write, execute_signal}
use btc_bot.Storage.Tables.{Tables}
use btc_bot.Storage.Persister.{apply_write, apply_writes}
use btc_bot.Storage.Queries.{insert_position}
use btc_bot.Storage.Persister.{insert_execution_fill_event}
use btc_bot.Storage.SafeMode.{KeepsSafeMode}
use btc_bot.Storage.Frame.{kept_trans, kept_refl, untouched}
use btc_bot.Orchestrator.World.{ExecutionEngine}

module _ {W : Type 0} where
  abbrev error_text : (PaperError W → String) → Option (PaperError W) → Option String
  error_text text none = none
  error_text text (some e) = some (text e)

  -- The engine does not turn safe mode on or off.
  abbrev pub KeepsThrough : ExecutionEngine W → Type 0
  KeepsThrough engine =
      (signal : ExecutableSignal W) (size : W) (leverage : ℕ) (q : Quotes W) (t : Tables W)
      → KeepsSafeMode t (engine.execute_signal signal size leverage q t).1

  apply_write-keeps : (x : Write W) (t : Tables W) → KeepsSafeMode t (apply_write x t)
  unfolding apply_write insert_position insert_execution_fill_event
  apply_write-keeps (Write.insert_position p) t = untouched t _ refl refl
  apply_write-keeps (Write.insert_execution_fill_event id order_type fill) t =
      untouched t _ refl refl
  apply_write-keeps Write.commit t = kept_refl t

  apply_writes-keeps : (xs : List (Write W)) (t : Tables W) → KeepsSafeMode t (apply_writes xs t)
  unfolding apply_writes
  apply_writes-keeps [] t = kept_refl t
  apply_writes-keeps (x ∷ xs) t =
      kept_trans t (apply_write x t) _ (apply_write-keeps x t)
        (apply_writes-keeps xs (apply_write x t))

module _ {W : Type 0} ⦃d : Double W⦄ where
  -- `draw` holds the ids and the time that the engine draws, `text` is the text of an error.
  unfoldable pub paper_engine : Draw → String → (PaperError W → String) → ExecutionEngine W
  unfolding execute_signal apply_writes
  paper_engine draw symbol text = record {
    execute_signal = λ signal size leverage q t.
        let o = execute_signal draw symbol q signal size leverage in
        (error_text text o.error, apply_writes o.writes t);
  }

  pub paper_engine-keeps :
      (draw : Draw) (symbol : String) (text : PaperError W → String)
      → KeepsThrough (paper_engine draw symbol text)
  unfolding paper_engine
  paper_engine-keeps draw symbol text signal size leverage q t =
      apply_writes-keeps (execute_signal draw symbol q signal size leverage).writes t
