-- ===== src/Execution.antt =====
-- app/execution with app/models/execution.py and app/models/execution_queue.py: the queue of approved
-- proposals and the coordinator that checks each again and hands it to a broker or the paper ledger.
-- What the brokers, the quotes, the ledger and the clock answer in one pass is an argument, `Outside`.
pub mod Queue
pub mod Attempts
pub mod Checks
pub mod Records
pub mod Orders
pub mod Submission
pub mod Items
pub mod Enqueue
pub mod Placement
pub mod Process
pub mod Keeps
pub mod Invariants
pub mod Actions
pub mod Once
pub mod Submitted
pub mod Exposure
pub mod OneOrder
pub mod Guarded
pub mod Coordination
pub mod OneOpen
pub mod Graph
pub mod Tests
use algo_trader.Prelude.{ℕ, String, Bool, true, false, Option, List}
use algo_trader.Result.{Result}
use algo_trader.Models.{OrderSide, ApprovalStatus, Signal, TradeOrder}
use algo_trader.Risk.Settings.{RiskSettings, ExecutionMode}
use algo_trader.Risk.Context.{Reason, RiskContext}
use algo_trader.Automation
use algo_trader.Automation.{AutomationSettings}
use algo_trader.Automation.Blocked.{Blocker}
use algo_trader.Broker.Router.{Choice, Router, NoBroker}
use algo_trader.Approvals
use algo_trader.Approvals.{Clock, ProposalError}

pub data QueueStatus : Type 0 where
  queued processing executed cancelled blocked failed : QueueStatus

pub data ExecutionStatus : Type 0 where
  created validated submitted filled canceled failed blocked : ExecutionStatus

pub data AccountReason : Type 0 where
  account_mismatch trading_blocked symbol_not_supported asset_check_failed : AccountReason

pub data QuoteReason : Type 0 where
  provider_not_alpaca provider_not_etoro not_direct too_old missing : QuoteReason

pub data BracketReason : Type 0 where
  long_entries_only stop_loss_missing take_profit_missing stop_loss_not_below_entry : BracketReason
  take_profit_not_above_entry reward_to_risk_below_min_at_quote : BracketReason

-- The texts of `validation_reasons`.
pub data Objection : Type 0 where
  automation : Blocker → Objection
  account : AccountReason → Objection
  quote : QuoteReason → Objection
  direction : String → Objection
  held : String → Objection
  max_trades_per_day_reached : Objection
  entry_drift_too_large : Objection

-- The texts of `validation_reason`.
pub data Validation (F : Type 0) : Type 0 where
  ready : Validation F
  proposal_status : ApprovalStatus → Validation F
  no_broker : NoBroker → Validation F
  objected : List Objection → Validation F
  risk_failed : List (Reason F) → Validation F
  bracket_failed : List BracketReason → Validation F
  broker_submission_failed : Validation F

-- `order`, `signal` and `execution_id` are the keys of the payload.
pub record QueueRecord (F : Type 0) : Type 0 where
  pub id : ℕ
  pub proposal_id : ℕ
  pub signal_id : Option ℕ
  pub symbol : String
  pub strategy_name : Option String
  pub timeframe : Option String
  pub mode : ExecutionMode
  pub client_order_id : String
  pub status : QueueStatus
  pub approval_required : Bool
  pub ready_for_execution : Bool
  pub requested_entry_price : F
  pub latest_quote_price : Option F
  pub latest_quote_timestamp : Option ℕ
  pub validation_reason : Option (Validation F)
  pub order : TradeOrder F
  pub signal : Option (Signal F)
  pub execution_id : Option ℕ
  pub created_at : ℕ
  pub updated_at : ℕ
  pub executed_at : Option ℕ

-- What a broker answers to an order: `BrokerOrderResponse`, as far as it is read.
pub record BrokerAnswer : Type 0 where
  pub order_id : Option String
  pub status : String
  pub mode : String

pub record PaperPosition (F : Type 0) : Type 0 where
  pub id : ℕ
  pub entry_price : F

-- What the coordinator or the trader raises.
pub data Failure (F : Type 0) : Type 0 where
  item_not_found : ℕ → Failure F
  not_approved : Failure F
  duplicate_item : String → Failure F
  index_violated : String → Failure F
  proposal_failed : ProposalError F → Failure F
  risk_refused : List (Reason F) → Failure F
  one_share_exceeds_max_trade_amount : Failure F
  crypto_notional_below_min_order : Failure F
  price_missing : Failure F
  no_submission_method : Failure F
  raised : String → Failure F

pub data Response (F : Type 0) : Type 0 where
  empty : Response F
  self_simulated : PaperPosition F → Response F
  self_simulated_fallback : PaperPosition F → Failure F → Response F
  refused_by : Choice → Response F
  answered : Choice → BrokerAnswer → Response F
  etoro_answered : BrokerAnswer → Response F

-- `request` is the order of the request payload with the client's order id.
pub record ExecutionRecord (F : Type 0) : Type 0 where
  pub id : ℕ
  pub proposal_id : ℕ
  pub status : ExecutionStatus
  pub mode : String
  pub broker_order_id : Option String
  pub strategy_name : Option String
  pub request : Option (TradeOrder F × String)
  pub response : Response F
  pub error_message : Option (Failure F)
  pub realized_pnl_usd : F
  pub created_at : ℕ
  pub updated_at : ℕ

-- What leaves the program, in order, whether it succeeds or raises: orders to the client of a number,
-- positions of the paper ledger, and the two mirrors.
pub data Call (F : Type 0) : Type 0 where
  submit_order : ℕ → String → OrderSide → F → String → Call F
  submit_bracket_order : ℕ → String → OrderSide → F → F → F → String → Call F
  submit_crypto_protected_order : ℕ → String → F → F → Option F → String → Call F
  open_market_order_by_amount : ℕ → TradeOrder F → String → Call F
  close_position : ℕ → String → Call F
  open_paper_position : ℕ → TradeOrder F → Call F
  mirror_live : ℕ → ℕ → Call F
  mirror_parallel : ℕ → ℕ → Call F

pub record World (F : Type 0) : Type 0 where
  pub approvals : Approvals.World F
  pub automation : Automation.World
  pub queue : List (QueueRecord F)
  pub executions : List (ExecutionRecord F)
  pub calls : List (Call F)

pub record Quote (F : Type 0) : Type 0 where
  pub last_execution : Option F
  pub ask : Option F
  pub bid : Option F
  pub source : String
  pub quote_derived_from_history : Bool
  pub data_age_seconds : Option F
  pub timestamp : Option ℕ

pub record Identity : Type 0 where
  pub account_number : String
  pub trading_blocked : Bool

-- The methods that the selected client has, and how the call of each ends.
pub record BrokerApi : Type 0 where
  pub get_account_identity : Option (Result String Identity)
  pub is_supported_equity : Option (Result String Bool)
  pub submit_order_answer : Option (Result String BrokerAnswer)
  pub bracket_answer : Option (Result String BrokerAnswer)
  pub crypto_answer : Option (Result String BrokerAnswer)
  pub by_amount_answer : Option (Result String BrokerAnswer)
  pub close_answer : Result String BrokerAnswer

pub record ExecutionSettings (F : Type 0) : Type 0 where
  pub risk : RiskSettings F
  pub automation : AutomationSettings
  pub paper_self_simulated : Bool
  pub workflow_lock_timeout_minutes : ℕ
  pub execution_max_entry_drift_bps : F
  pub execution_min_reward_to_risk_at_quote : F
  pub alpaca_require_bracket_orders : Bool
  pub paper_simulated_fallback_enabled : Bool
  pub max_market_data_age_seconds : F
  pub drawdown_governor_enabled : Bool
  pub drawdown_governor_soft_pct : F
  pub drawdown_governor_hard_pct : F
  pub drawdown_governor_floor : F
  pub etoro_account_mode : String

-- `automation` is the readiness test of the automation service, where there is one, and `router` the
-- broker router, where there is one.
pub record Coordinator (F : Type 0) : Type 0 where
  pub settings : ExecutionSettings F
  pub router : Option Router
  pub trader_broker : ℕ
  pub automation : Option (Automation.World → Bool)
  pub emergency_clients : Option (List Automation.Client)

-- One pass: the clock's readings in the order of their use, the new ids, and the answers. `mirror` is
-- `none` with no parallel broker, and `live_mirror` tells if there is a live mirror.
pub record Outside (F : Type 0) : Type 0 where
  pub stale_checked : ℕ
  pub claimed : ℕ
  pub proposal_clock : Clock
  pub tripped : ℕ
  pub today : ℕ
  pub trader_clock : Clock
  pub attempted : ℕ
  pub second_attempted : ℕ
  pub answered_at : ℕ
  pub marked : Clock
  pub settled : ℕ
  pub execution_id : ℕ
  pub second_execution_id : ℕ
  pub quote : Result String (Quote F)
  pub broker : BrokerApi
  pub direction : List String
  pub held : List String
  pub context : Result String (RiskContext F)
  pub room : Option (List String)
  pub trader_context : Result String (RiskContext F)
  pub paper : Result String (PaperPosition F)
  pub live_mirror : Bool
  pub mirror : Option (Result String (Unit {0}))

abbrev pub is_open_item : QueueStatus → Bool
is_open_item QueueStatus.queued = true
is_open_item QueueStatus.processing = true
is_open_item _ = false

abbrev pub is_failed_attempt : ExecutionStatus → Bool
is_failed_attempt ExecutionStatus.failed = true
is_failed_attempt ExecutionStatus.blocked = true
is_failed_attempt _ = false

abbrev pub mode_name : ExecutionMode → String
mode_name ExecutionMode.paper = "paper"
mode_name ExecutionMode.live = "live"
