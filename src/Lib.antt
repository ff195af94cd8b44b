-- ===== src/Lib.antt =====
-- MarketMind's paper trader, from the signal to the portfolio snapshot.
--
-- The trader turns signals of strategy versions into simulated trades. Every minute a tick
-- (workers/src/marketmind_workers/trader/jobs.py) runs the phases of a cycle over one PostgreSQL
-- database, counts the failures of each phase and schedules the next tick. Among the phases are:
--   * the ingestion (trader/ingestion.py beside it) fetches candles, stores the closed ones, and reports
--     gaps and failing feeds;
--   * the signal engine (trader/signal_engine.py) evaluates the template of each active
--     version on the latest closed candle of each pair, and stores a signal or a HOLD, and for
--     stateful templates the state to go on from;
--   * the risk manager (workers/src/marketmind_workers/trader/risk.py) settles each waiting signal: it
--     blocks it and records a risk event, or queues a paper order;
--   * the execution engine (trader/execution.py beside it) closes the positions whose stop a candle
--     has breached, and fills the queued orders at the open of the next candle;
--   * the portfolio (trader/portfolio.py) computes cash, equity, peak and drawdown from the fills and
--     the positions, and appends a snapshot, which the risk manager reads in the next cycle.
-- They share the arithmetic of shared/src/marketmind_shared/trader/money.py and the clock of time.py
-- beside it. Apart from the trader, the research pipeline (workers/src/marketmind_workers/ftr) splits
-- its data into folds for walk-forward training, judges a strategy by gates, and has a paper broker
-- and risk guards of its own. A strategy whose conditions depend on the outcomes of its trades is
-- simulated bar by bar (workers/src/marketmind_workers/backtest/iterative.py); the live trader goes on
-- with the same simulation from a stored checkpoint (iterative_live.py beside it).
--
-- Decimal       `decimal.Decimal` with 28 digits; Decimal/Round is correct rounding, Decimal/Laws what
--               the operations give on magnitudes.
-- Money         money.py; the bounds are in Money/Bounds.
-- Clock         time.py; Clock/Boundaries is about candles, Clock/Windows about days and weeks.
-- Trader/Schema, Trader/Tables
--               the enums and rows of schemas/trader.py, the database as a record of tables, and the
--               constraints of infra/db/migrations/0008_trader_v1_signals_orders_fills.sql.
-- Trader/Risk   risk.py. Checks holds `evaluate_risk`, one definition for each group of checks, with
--               the recorded blocks in Checks/Blocks; State the queries, and Cycle
--               `process_pending_signals`. The other modules are proofs: Gate and Outcome on the
--               decision, Sizing on the size, Turn, Progress and Drained on the pass.
-- Trader/Execution
--               execution.py. Fills holds the arithmetic and the writes, Cycle `process_one_cycle`.
--               Proofs: Writes on each write, Advances and Accounts on the cycle, Conflict on the
--               stop closes.
-- Trader/Portfolio
--               portfolio.py. Proofs: Peak on the snapshot, Breakdown on the two dictionaries, Cash on
--               the fills that the executor writes, Curve on the equity curve.
-- Trader/Signals
--               signal_engine.py. Store holds its own tables and their queries, Pair `_evaluate_pair`,
--               Cycle `evaluate_one_cycle`. Proofs: Counted and Summary on the counters, Contained on
--               exceptions, States and Repeated on the stored states.
-- Trader/Ingestion
--               ingestion.py and session_skip.py; Cycle is the pass over the pairs. Proofs: Feed on the
--               error state of a pair, Table and Counts on the candles and the counters.
-- Trader/Jobs   jobs.py: the schedules, the counters of phase failures and the main tick. Proofs:
--               Boundaries, Streaks and Chain.
-- Trader/Runs   heartbeat.py, and what jobs.py and runner.py do to the rows of runs. Proofs: Single.
-- Trader/Alerts alerts.py: the dispatcher and its retries. Proofs: Counts and Delivery.
-- Ftr/Guards    trader/guards.py of the research pipeline. Proofs: Conditions and Allowed on one
--               decision, Stops on sequences of calls.
-- Ftr/Broker    trader/paper_broker.py. Proofs: Positions, one per symbol; Replay, the book
--               against the fills.
-- Ftr/Gates     validation/gates.py. Proofs: Verdicts.
-- Ftr/Floats    Python's floats as a record of operations, which the guards, the broker and the gates
--               take as a parameter; Ftr/Exact is an instance for the tests.
-- Ftr/Splits    features/splits.py of the research pipeline: purged walk-forward folds. Proofs:
--               Walk on the loop, Leakage on what the masks and the folds keep apart.
-- Backtest/Conditions, Backtest/Evaluators, Backtest/Compile
--               the condition trees of shared/src/marketmind_shared/schemas/strategy_spec, and their
--               compilation in backtest/iterative.py.
-- Backtest/History
--               trade_history.py. Proofs: Runs on the predicates of prior trades.
-- Backtest/Schema, Sizing, Levels, Positions, Phantom, Shadow, Iterative
--               iterative.py: data, entry size, stops and targets, opening and closing, phantom trades,
--               the shared variables of the two loops, and the loop, whose steps are one definition
--               each. Proofs: Levels/Trailing on stops, Iterative/Order on the trades in time,
--               Iterative/Pending on the signals, Iterative/Numbered on the exit indices, and
--               Iterative/Twin, Promise and Agree on the trades against the phantom trades.
-- Backtest/Live iterative_live.py; Live/Checkpoint is its stored state. Proofs: Parity against the
--               loop, Peek on the phantom trades, Kept, Alike and Resume on checkpoints.
-- Backtest/Floats
--               the floats of the simulators, with a division that raises; Backtest/Exact is an
--               instance for the tests.
-- Trader/Scenario and the modules named Tests hold concrete books and runs.
--
-- An operation on the database takes the database and returns a result: a value and the database
-- after it, or the exception that was raised. An exception leaves the `with psycopg.connect` block,
-- which rolls everything back, so nothing of the database is part of an error. UUIDs and serial
-- numbers come from one counter, NOW() is a field. One cycle runs at a time.
--
-- A decimal is a whole number of units of 10 ^ -60: exact enough for every product of the trader's
-- values with 8 decimals, whose results are rounded to 28 digits as the default context does. The
-- loop that drops digits has as much fuel as the number to round, so it ends before the fuel does.
-- The loop over the folds has fuel too, and says so when it runs out; a step of one day or more
-- needs at most one round for each microsecond of the timestamps. NaN, infinities and exponents
-- beyond the context's are left out.
--
-- The templates of the signal engine, the advisory lock, the exchange adapter, the asset class of a
-- symbol, the emission of an alert, the replies of Telegram, the phases, and for a backtest the
-- vectorised evaluators of conditions and expressions, the range series and the costs are parameters
-- too: what is proved holds for all of them. Redis is a function from phases to counters with an
-- expiry, and two such keys for each pair of the ingestion.
--
-- A series of a backtest is a function of the bar, which is read at bars of the run only; the loops
-- recur on the bars that are left, so they need no fuel. The histories hold the last record first.
--
-- A ValidationError of a Pydantic model is an error of its own, though Python counts it as a
-- ValueError. The models of trades and checkpoints are checked where they are built; the time stamps
-- of bars are taken to be in UTC, as those models ask. Where several rows share the latest time of an
-- ORDER BY with LIMIT 1, PostgreSQL may return any of them, and the model returns the last inserted.
-- An unknown timeframe of a version raises; its template is a value of the enum by a CHECK.
--
-- Not modelled: drift, the exchanges, the bootstrap of the schedules, the API, the templates, the
-- validation of specifications, the vectorised backtest engines, the rest of the research code and the
-- user interface; within the modelled files the updates of heartbeats, the log lines, the texts of
-- reasons and alerts, and the summaries of jobs.py.
pub mod Common
pub mod Decimal
pub mod Money
pub mod Clock
pub mod Trader
pub mod Ftr
pub mod Backtest
