-- ===== src/Lib.antt =====
-- A verification library for the trading bot of this repository: the decision engines of core/, the
-- store of the runtime state, paper and live execution, the recovery at startup, the decision cycle
-- and the guards of the orchestrator, the replay of backtest/ with its report, and the Pareto
-- frontier, the constraints and the walk-forward runs of research_lab/, as functions.
--
-- In each cycle orchestrator.py passes a market snapshot through the engines: the feature engine
-- keeps rolling histories and computes the features, the regime engine and the context engine
-- classify them, the signal engine proposes a candidate, the governance layer accepts or rejects it,
-- and the risk engine sizes it and later decides when the position leaves. Here an engine's
-- configuration is the first argument of its functions, and the state that it keeps is an argument
-- and a result. What a clock or a random id gives is an argument; what a `state_provider` gives is
-- an argument of the engines, and the orchestrator's functions read it from the store. The store is
-- state passing on the tables of the database: positions, fills, trades, daily metrics, the runtime
-- state with safe mode, and the log of safe mode events.
--
-- Files:
-- - Prelude: shared names, tests and lists; Prelude.Double: the operations of Python's floats over
--   an abstract type, with the laws that theorems rely on (IsOrdered, IsRounded); Prelude.Fixed: an
--   instance of these laws; Prelude.Sorting, Prelude.Order, Prelude.Tails: lemmas.
-- - Core.Models: core/models.py, the enumerations and records.
-- - Core.Governance: core/governance.py, GovernanceLayer; its deque is a list, oldest first.
-- - Core.Risk: core/risk_engine.py, RiskEngine.
-- - Core.Regime: core/regime_engine.py, RegimeEngine.
-- - Core.Context: core/context_engine.py, ContextEngine, with ContextConfig of settings.py.
-- - Core.Funding: core/funding.py.
-- - Core.Signal: core/signal_engine.py, SignalEngine. Diagnose holds diagnose and generate, Score the
--   score, the directions and the price levels.
-- - Core.Features: core/feature_engine.py, FeatureEngine. Numbers, Levels and Sweep hold its free
--   functions, History its state and what is read from it, Quality its marks, Engine compute.
-- - Storage: Tables is the part of storage/schema.sql that is modelled and Queries the functions of
--   storage/repositories.py on it; Runtime, State and Trades are StateStore of
--   storage/state_store.py, Trigger the trigger of a reason, Persister storage/position_persister.py.
--   Attempts is the list of the safe mode events that a run tries to write. SafeMode, Frame, Ids,
--   Reach, Sound, OpenTrades, Closing and Measures hold proofs.
-- - Execution.Paper: execution/paper_execution_engine.py, with FillEvent of core/execution_types.py.
--   What the engine asks of its persister is a list of writes.
-- - Execution.Orders: execution/order_manager.py, with OrderRequest of core/execution_types.py. The
--   interface Exchange holds the requests that execution makes, the clock and the random ids.
--   Registry and Amend hold proofs.
-- - Execution.Live: execution/live_execution_engine.py. Poll holds the requests of the engine and the
--   wait for an entry, Execute `execute_signal`; Deadline and Outcome hold proofs.
-- - Execution.Recovery: execution/recovery.py; what the exchange answers is an argument.
-- - Orchestrator: orchestrator.py. World holds its state and what a cycle takes from outside, with
--   the execution engine as an interface that Engine fills with the paper engine; Lifecycle the exits
--   of open trades, Cycle the decision cycle, Guards the kill switch, the health check and the monitor
--   cycle, Schedule the deadlines, Loop the event loop, as a list of its turns, and Start the
--   start of the bot. Exits, Opens, Ends, KillSwitch, Locked, Suspect, Quiet, Spaced and Deadline
--   hold proofs.
-- - Backtest: Performance is backtest/performance.py, Fill is backtest/fill_model.py. The rest is
--   backtest/backtest_runner.py: Positions an open position and its stop, Settling and Exits how it is
--   closed, Runtime what governance and risk read, Runner the state of the runner, and Run `run` on
--   the list of snapshots that the loader yields. The other modules hold proofs.
-- - Research: research_lab/pareto.py, the trials of research_lab/types.py, the checks on parameters of
--   research_lab/constraints.py, and of research_lab/walkforward.py the windows (Windows), the
--   judgement of a candidate over them (Walk) and the nested run (Nested, with Run), where the
--   evaluation of a segment and the search of parameters are arguments.
-- - Tests: examples on numbers with twelve decimals.
--
-- A function keeps its name from the code, without a leading underscore; methods of one engine stand
-- in its module. A reason string is a constructor, with the values that the code formats into it. A
-- dictionary with a fixed set of keys is a record, and a whitelist a function to an Option.
--
-- A float is a value of an abstract type, so no theorem rests on exact arithmetic: IsOrdered says
-- how numbers compare, IsRounded that an operation is monotone and that signs are exact, and NaN is
-- excluded where a theorem says that a value is a number. A division by zero gives some value, where
-- Python raises; the code tests or bounds its divisors. A datetime is a
-- number of microseconds since 1970, in UTC. Comparisons with a difference of times are written as
-- comparisons with a sum. Loops run over lists, except for three: the fuel of the one that advances a
-- deadline is one step more than the quarters of an hour that the deadline is behind, and that of the
-- one that builds the windows is two more than the microseconds of the data, where a step is a day or
-- more; with a step of no days the loop does not end, and neither does the code. The wait for the fill of
-- an entry has two polls more than the timeout has units of the clock, which moves on between them.
--
-- An exception is a value: the errors of the store are a sum, and a function that raises leaves the
-- tables as the code has left them. ISO texts of times in UTC sort like the times, so a table
-- compares times. SQL's SUM, `str.upper` and the text of an exception are arguments.
--
-- The database takes every write, with one exception: whether it takes a row of safe_mode_events, whose
-- failure the store only logs, is a parameter of the store. The failure of another write is not
-- modelled, also where orchestrator.py only logs it, for a decision outcome.
--
-- Not modelled: market data, monitoring and the dashboard, which are
-- input and output; migrations of the schema, and what is stored for audit only: snapshots, runtime
-- metrics and the details of a decision outcome; of the backtest the loader of its snapshots and the
-- rows that it writes at its end; the other parts of the research lab, and scripts.
pub mod Prelude
pub mod Core
pub mod Storage
pub mod Execution
pub mod Backtest
pub mod Research
pub mod Tests
pub mod Orchestrator
