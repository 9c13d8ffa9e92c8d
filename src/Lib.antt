-- ===== src/Lib.antt =====
-- AI Market Scanning Engine: the path from market data to a delivered alert, modelled and proved.
--
-- The program scans NSE symbols, judges the candidates, follows each symbol through a momentum state
-- machine, and turns what qualifies into alerts, which it deduplicates, throttles, queues and delivers.
-- Paths are from the repository's root.
--
-- Parts, and the files that model them:
--  * Ticks (app/providers/tick_aggregator.py, app/data/validator.py): Ticks/Aggregator has `ingest`,
--    `flush_open_buckets` and `_to_candle` on the aggregator's two dictionaries and counters, and
--    Ticks/Validator has `validate_candle` and `validate_candles`. Streams follows one instrument through a
--    mixed stream; Bars, Chains, Cleaning and Volume are about its candles.
--  * Scanning (app/scanner/scanner_manager.py, engine.py, scanner_registry.py, base_scanner.py and
--    app/repositories/scanner_repository.py): Tables has the results, logs and runs, Models the strategy as
--    a record of its methods, Manager one batch with its savepoints, Batches `run_scanner`, Engine
--    `run_all`. Verdicts says what becomes of one symbol; Passes, Counts, Keys, Standing, Days, Runs and
--    Errors are about the tables, the counters and the errors.
--  * Scanners (app/scanner/*_scanner.py, validator.py, app/candidates): Breakout, Vcp, Momentum and Orb have
--    the four listed strategies, with Contexts, Composite and Validator for what they share. Candidate and
--    Builder have a candidate and `build_candidate`, Candidates and CandidateScans the three candidate
--    scanners, Universes their strategies, Registry what app/main.py registers. Built, Answers, Safety,
--    Bounds, Scores and Labels are about contexts, asserts, scores, and the router's choice of a bot. The
--    qualified rows go to Decision and Pipeline.
--  * Calendar (app/market_calendar, and `is_market_open` of app/data/market_updater.py): Holidays has the
--    table of 2026, Trading the questions and the two bounded walks, Dates the calendar arithmetic.
--  * Decision (app/decision): Rules has the eight rules in their order, Evaluator the verdict, Engine the
--    pass over the qualified rows, which hands every ALERT to the alert manager.
--  * Momentum (app/momentum, app/repositories/momentum_state_repository.py): States and Machine have the
--    state machine, Repository the table of states with its log, and Engine one evaluation, which may
--    raise an alert.
--  * Pipeline (app/decision/momentum_*.py): Decide has the verdict on a state, Coordinator the evaluation
--    of one symbol with its observation, Run the pass over the qualified rows.
--  * Alerts (app/alerts, app/repositories/alert_repository.py): Store has the tables and the queue, Manager
--    `_process_impl` with the deduplicator and the throttler. Decision and Momentum both end here.
--  * Fundamentals (app/fundamentals/queue_service.py and the repository of its log): Log has the log and its
--    questions, Queue `run_queue` with its batches, budgets and pauses. Select has
--    the selection of the pending rows and its order, over `list.sort` in Prelude/Sorting; Pending, Tiers and
--    Priority describe it without the code's tests and keys. Served is about the rows that a run fetches.
--    Apply and Settled have what a fetch writes to its row. A run reads its rows once, at its start.
--  * Signals (app/signals): Models and Components have the seven components, Engine `compute` with its
--    renormalised score, Named and Fused what a result promises. The pipeline takes a result as an argument.
--  * Notifications (app/notifications): Router has routing and the digest's split, Delivery `deliver_now`
--    with its retries and `recover_pending`, which work on the alert tables.
--  * Prelude, Values, Runtime and Settings are shared: lists, maps, integers and floats; the JSON values of
--    a feature snapshot; what comes from outside; and the settings read. Examples has tests and runs.
--
-- How the code is modelled. Tables are records of rows, the newest first (of the scanners, the oldest), and each database operation
-- maps tables to tables. The strategies of a registry share one type of contexts, and a strategy raises on a
-- context of another class, as its assert does. The database may refuse any write of a scan. A call that can raise returns a Result. An instant is a whole number of seconds, a date
-- its day number, a minute its number. `float` is the interface Float and `Decimal` the interface Decimal,
-- each with the laws of its order that a theorem names; a NaN is a float that is not `<=` itself. Hashing,
-- time zones and text splitting are the fields of Runtime. Other readers and writers of the tables appear
-- where they can interleave with a delivery: as arbitrary changes while it sends or sleeps.
--
-- Bounds and fuel. The two walks of the calendar have the code's own bound of 30 days as fuel, far more than
-- any run of closed days in the table. The delivery loop has as many rounds as attempts are allowed, since
-- the code counts every round as an attempt. The fundamental queue's rows are cut into at most as many
-- batches as there are rows, since no batch is empty, and so are the symbols of a scan. Every other loop is over a list.
--
-- Not modelled: the texts of reasons and messages, logging, the tables of heartbeats, the read-only
-- queries of the web service, SQL and transactions, and the parts that compute on data frames or talk to
-- brokers. The signal fusion's result is an argument of the pipeline. In the passes of Decision and Pipeline
-- the rows, names and prices that a repository reads are arguments, and exceptions other than the code's own
-- and the fusion's do not occur.
pub mod Prelude
pub mod Momentum
pub mod Runtime
pub mod Values
pub mod Settings
pub mod Calendar
pub mod Decision
pub mod Alerts
pub mod Notifications
pub mod Ticks
pub mod Pipeline
pub mod Fundamentals
pub mod Scanning
pub mod Scanners
pub mod Signals
mod Examples
