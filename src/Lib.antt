-- ===== src/Lib.antt =====
-- AlgoTrader is a trading bot: it scans markets for signals, turns a signal into a proposal that waits
-- for an approval, and executes an approved proposal through a broker. What stands between a signal
-- and an order are its gates, and these are what this library models.
--
-- The parts, and how they interact:
--   * A symbol is resolved to an instrument (app/broker/instrument_resolver.py, app/broker/crypto.py),
--     against allow and block lists: Broker/Resolver.antt, Broker/Crypto.antt.
--   * An order is validated against the account (app/risk/guardrails.py with app/risk/rules.py,
--     app/risk/shorting.py, app/risk/sectors.py and the heat functions of
--     app/risk/volatility_target.py): Risk/Guardrails.antt, with Risk/Rules.antt, Risk/Shorting.antt,
--     Risk/Sectors.antt, Risk/Heat.antt. `validate_order` is `RiskManager.validate_order`; the reasons
--     that it collects are split into groups, one function per group, joined in the order of the code.
--     What each check means without the list of reasons is in Risk/Guardrails/Clear.antt.
--   * Amounts are sized and shared out (app/risk/position_sizing.py, app/risk/proposal_sizing.py,
--     app/risk/allocation.py): Risk/Sizing.antt, Risk/Allocation.antt.
--   * A proposal is created, read, approved, rejected and marked executed
--     (app/approvals/service.py over the table approvals of app/storage/repositories.py):
--     Approvals.antt, Approvals/Creation.antt, Approvals/Store.antt. A call takes the state and gives a
--     result and a state, also where it raises: a stale proposal is expired before the call refuses
--     it. Approvals/Requests.antt runs sequences of calls.
--   * The operator and the bot pause, kill and resume trading (app/automation/service.py):
--     Automation.antt, and Automation/Blocked.antt for what is blocked. The bot resumes itself after a
--     tripped breaker (app/automation/auto_recover.py): Automation/AutoRecover.antt.
--   * An order goes to the broker of its asset class (app/broker/router.py): Broker/Router.antt. Calls of
--     eToro are throttled per account (app/broker/etoro_rate_limit.py): Broker/RateLimit.antt, one pass
--     of the waiting loop at a time, in any interleaving of the accounts' calls, and the whole loop.
--   * Two runs of a workflow task are kept apart by a lock in the runtime state
--     (app/workflow/cadence_budget.py): Workflow/Lock.antt. The same file decides which scans of a tick may
--     start: Workflow/TickBudget.antt.
--   * An approved proposal waits in a queue, and the coordinator takes it up
--     (app/execution/coordinator.py and app/execution/trader.py, over the tables execution_queue and
--     executions of app/storage/repositories.py): Execution.antt holds the state, the settings and what
--     one pass gets from outside. Execution/Queue.antt and Execution/Attempts.antt are the repositories,
--     with the primary key and the unique index of app/storage/db.py; Execution/Enqueue.antt queues;
--     Execution/Process.antt, Execution/Placement.antt and Execution/Items.antt are
--     `_process_queue_item`, one function per stage; Execution/Checks.antt what it checks again;
--     Execution/Orders.antt, Execution/Submission.antt and Execution/Records.antt send the order and
--     record the answer. Execution/Actions.antt runs any calls of this and of the approval service over
--     one store; Execution/Keeps.antt and Execution/Invariants.antt carry a property of the state
--     through a pass, and Execution/Graph.antt has the changes of an item's status. A pass is one step,
--     since the code holds its entry lock for it.
-- Shared: Prelude.antt (names, tests, lists), Text.antt (Python texts), Dict.antt (dicts), Result.antt
-- (exceptions as values), Float.antt (floats), Models.antt (the pydantic models of app/models).
--
-- Conventions and bounds. A float is an element of any type with the operations of Float.antt; a
-- theorem that needs laws of comparison names those of Float/Order.antt, which IEEE doubles satisfy
-- with NaN included, and Float/Micros.antt is a type on which all of it runs. Counts and leverage
-- are natural numbers. Times are microseconds, and each reading of the clock is an argument. Ids are
-- numbers. Texts are changed in case and trimmed on ASCII only. The unique index on open queue rows is
-- taken to be in place, which app/storage/pg_upgrades.py only attempts on Postgres, and taking a
-- workflow lock, a read and then a write in the code, is taken not to be interrupted. Every loop is over a list, but for the
-- waiting loop of the throttle: it takes as fuel the passes it may make, and enough are as many as sleeps
-- of two seconds cover the minimal interval, and one more (Broker/RateLimit/Waiting.antt).
--
-- Taken as arguments: the brokers' answers, the quotes, the reasons of the market direction and of the
-- live account's holdings, the paper ledger's and the mirrors' answers, the digest of ids, the
-- reconciliation, the notifier, the readiness report, the verdict of the live eToro room, and the risk
-- context where a proposal is created or executed.
--
-- Not modelled: run logs and learning events of the execution, the paper ledger, the scans, strategies,
-- backtests, learning and reports (numerical work over data frames), the network clients, the
-- dashboard and the HTTP routes, the database itself, and the checks that pydantic makes of requests.
-- The mark that an emergency stop leaves for the live exit copy is an event, not a state.
pub mod Prelude
pub mod Text
pub mod Dict
pub mod Int
pub mod Float
pub mod Result
pub mod Models
pub mod Broker
pub mod Risk
pub mod Automation
pub mod Approvals
pub mod Workflow
pub mod Execution
