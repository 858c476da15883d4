-- ===== src/Execution/Tests.antt =====
-- Runs of app/execution/coordinator.py: one approved proposal from the queue to the paper ledger and to
-- a broker.
use algo_trader.Prelude.{ℕ, ◌≤◌, ◌≡◌, refl, true, false, none, some, List, [], ◌∷◌, arith, All}
use algo_trader.Result.{ok, err}
use algo_trader.Float.Micros.{Micros, micros_float}
use algo_trader.Models.{OrderSide, ApprovalStatus, TradeProposal}
use algo_trader.Risk.Guardrails.Tests.{usd, settings, order, context}
use algo_trader.Approvals.Tests.{stored, holding, clock}
use algo_trader.Automation.{AutomationSettings, Mode}
use algo_trader.Broker.Router.{Choice, Router}
use algo_trader.Approvals.Store.{get}
use algo_trader.Broker.Resolver.{resolve}
use algo_trader.Broker.Crypto.{split}
use algo_trader.Risk.Guardrails.{
  validate_order, risk_cap, leverage_reasons, count_reasons, loss_reasons, drawdown_reasons,
  exposure_reasons, stop_reasons, mode_reasons,
}
use algo_trader.Risk.Sectors.{correlation_bucket_for_symbol}
use algo_trader.Risk.Shorting.{short_blockers}
use algo_trader.Risk.Heat.{fits_within_heat}
use algo_trader.Risk.Rules.{estimate_risk_amount, leverage_cap_for_asset}
use algo_trader.Execution.{
  QueueStatus, QueueRecord, Coordinator, Outside, World, Quote, BrokerApi, submit_bracket_order,
}
use algo_trader.Risk.Context.{RiskContext}
use algo_trader.Approvals.Tests.{surroundings, request}
use algo_trader.Approvals.Requests.{Request, reading, creation, run, no_proposals}
use algo_trader.Approvals.Invariant.{IsAdmitted}
use algo_trader.Approvals.Provenance.{IsAutomatic}
use algo_trader.Execution.Queue
use algo_trader.Execution.Queue.{started}
use algo_trader.Execution.Queue.Unique.{count_if, id_count, open_count}
use algo_trader.Execution.Items.{executed_item, validated_item}
use algo_trader.Execution.Actions.{service, processing, act_all}
use algo_trader.Execution.OneOrder.{process_queue_item-once}
use algo_trader.Execution.Guarded.{IsCleared, process_queue_item-IsCleared}
use algo_trader.Execution.Coordination.{decisions, served, act_all-requests, act_all-IsAdmitted}
use algo_trader.Execution.OneOpen.{act_all-one_open}
use algo_trader.Execution.Process.{process_queue_item}
use algo_trader.Execution.Graph.{◌⟶*◌}
use algo_trader.Execution.Graph.Pass.{process_queue_item-steps}

abbrev automation_settings : AutomationSettings
automation_settings = record {
  automation_paused_default = false;
  kill_switch_enabled = false;
  kill_switch_auto_close_positions = false;
  expected_account_number = "";
  execution_mode = Mode.paper;
  require_approval = true;
  enable_real_trading = false;
  paper_trading_enabled = true;
  institutional_portfolio_controls_enabled = false;
  micro_live_cap_ok = true;
  live_operator_acknowledgement = "";
}

abbrev router : Router
router = record {
  alpaca_client = some 1;
  etoro_client = none;
  broker_for_equities = Choice.alpaca;
  broker_for_non_equities = Choice.alpaca;
  broker_for_crypto = Choice.alpaca;
  emergency_clients = [];
}

abbrev coordinator : Coordinator Micros
coordinator = record {
  settings = record {
    risk = settings;
    automation = automation_settings;
    paper_self_simulated = false;
    workflow_lock_timeout_minutes = 45;
    execution_max_entry_drift_bps = usd 50;
    execution_min_reward_to_risk_at_quote = usd 1;
    alpaca_require_bracket_orders = true;
    paper_simulated_fallback_enabled = false;
    max_market_data_age_seconds = usd 60;
    drawdown_governor_enabled = false;
    drawdown_governor_soft_pct = usd 2;
    drawdown_governor_hard_pct = usd 5;
    drawdown_governor_floor = usd 0;
    etoro_account_mode = "demo";
  };
  router = some router;
  trader_broker = 9;
  automation = none;
  emergency_clients = none;
}

abbrev quote : Quote Micros
quote = record {
  last_execution = some (usd 100);
  ask = none;
  bid = none;
  source = "Alpaca";
  quote_derived_from_history = false;
  data_age_seconds = some (usd 5);
  timestamp = some 2_000;
}

abbrev alpaca_api : BrokerApi
alpaca_api = record {
  get_account_identity = none;
  is_supported_equity = some (ok true);
  submit_order_answer = some (err "no plain orders");
  bracket_answer =
      some (ok (record { order_id = some "a-1"; status = "accepted"; mode = "paper" }));
  crypto_answer = none;
  by_amount_answer = none;
  close_answer = err "";
}

abbrev outside : Outside Micros
outside = record {
  stale_checked = 2_000;
  claimed = 2_000;
  proposal_clock = clock 2_000;
  tripped = 2_000;
  today = 2_000;
  trader_clock = clock 2_000;
  attempted = 2_000;
  second_attempted = 2_000;
  answered_at = 2_000;
  marked = clock 2_000;
  settled = 2_000;
  execution_id = 31;
  second_execution_id = 32;
  quote = ok quote;
  broker = alpaca_api;
  direction = [];
  held = [];
  context = ok context;
  room = none;
  trader_context = ok context;
  paper = err "no ledger";
  live_mirror = false;
  mirror = none;
}

abbrev item : ℕ → QueueStatus → QueueRecord Micros
item k status = record {
  id = k;
  proposal_id = 7;
  signal_id = none;
  symbol = "NVDA";
  strategy_name = none;
  timeframe = none;
  mode = settings.execution_mode;
  client_order_id = "c-7";
  status = status;
  approval_required = true;
  ready_for_execution = false;
  requested_entry_price = usd 100;
  latest_quote_price = none;
  latest_quote_timestamp = none;
  validation_reason = none;
  order = order;
  signal = none;
  execution_id = none;
  created_at = 1_500;
  updated_at = 1_500;
  executed_at = none;
}

abbrev start : ApprovalStatus → World Micros
start status = record {
  approvals = holding (stored status (some "human") 1_000);
  automation = record { runtime = []; events = [] };
  queue = item 20 QueueStatus.queued ∷ [];
  executions = [];
  calls = [];
}

places_bracket :
    (process_queue_item coordinator outside 20 (start ApprovalStatus.approved)).1.calls
    ≡ submit_bracket_order 1 "NVDA" OrderSide.buy (usd 5) (usd 110) (usd 95) "c-7" ∷ []
unfolding process_queue_item get validate_order resolve leverage_reasons leverage_cap_for_asset
    count_reasons correlation_bucket_for_symbol loss_reasons drawdown_reasons exposure_reasons
    short_blockers stop_reasons risk_cap estimate_risk_amount fits_within_heat mode_reasons split
places_bracket = refl

-- A second item of the proposal, which a failed attempt had left.
abbrev two_items : World Micros
two_items = record (start ApprovalStatus.approved) {
  queue = item 20 QueueStatus.queued ∷ item 21 QueueStatus.blocked ∷ [];
}

abbrev executed_20 : QueueRecord Micros
executed_20 =
    executed_item 2_000 2_000 31
      (validated_item (some (usd 100)) (some 2_000) [] (started 2_000 (item 20 QueueStatus.queued)))

is_sent :
    (process_queue_item coordinator outside 20 two_items).1.calls
    ≡ submit_bracket_order 1 "NVDA" OrderSide.buy (usd 5) (usd 110) (usd 95) "c-7" ∷ []
unfolding process_queue_item get validate_order resolve leverage_reasons leverage_cap_for_asset
    count_reasons correlation_bucket_for_symbol loss_reasons drawdown_reasons exposure_reasons
    short_blockers stop_reasons risk_cap estimate_risk_amount fits_within_heat mode_reasons split
is_sent = refl

is_returned : (process_queue_item coordinator outside 20 two_items).0 ≡ ok executed_20
unfolding process_queue_item get validate_order resolve leverage_reasons leverage_cap_for_asset
    count_reasons correlation_bucket_for_symbol loss_reasons drawdown_reasons exposure_reasons
    short_blockers stop_reasons risk_cap estimate_risk_amount fits_within_heat mode_reasons split
is_returned = refl

is_next :
    Queue.get 21
      (act_all coordinator 240
        (service (reading (clock 3_000) 7) ∷ [])
        (process_queue_item coordinator outside 20 two_items).1).queue
    ≡ some (item 21 QueueStatus.blocked)
unfolding act_all Queue.get process_queue_item get validate_order resolve leverage_reasons
    leverage_cap_for_asset count_reasons correlation_bucket_for_symbol loss_reasons drawdown_reasons
    exposure_reasons short_blockers stop_reasons risk_cap estimate_risk_amount fits_within_heat
    mode_reasons split
is_next = refl

process_queue_item-once_example :
    let v =
      act_all coordinator 240
        (service (reading (clock 3_000) 7) ∷ [])
        (process_queue_item coordinator outside 20 two_items).1 in
    (process_queue_item coordinator outside 21 v).1.calls ≡ v.calls
unfolding Queue.get
process_queue_item-once_example =
    process_queue_item-once coordinator 240 outside outside 20 21 two_items
      (item 20 QueueStatus.queued) executed_20 (item 21 QueueStatus.blocked)
      (service (reading (clock 3_000) 7) ∷ []) refl is_returned refl (λ e. cc is_sent) (tt, tt)
      is_next refl

process_queue_item-IsCleared_example :
    (r : QueueRecord Micros) × (p : TradeProposal Micros) × (client : ℕ) × (name : Choice)
    × (q : Quote Micros) × (x : RiskContext Micros) × (Queue.get 20 two_items.queue ≡ some r)
    × IsCleared coordinator outside two_items r p client name q x
process_queue_item-IsCleared_example =
    process_queue_item-IsCleared coordinator outside 20 two_items (λ e. cc is_sent)

act_all-requests_example :
    (rs : List (Request Micros)) × (decisions rs ≡ decisions (served (processing outside 20 ∷ [])))
    × ((act_all coordinator 240 (processing outside 20 ∷ []) two_items).approvals
        ≡ run settings 240 rs two_items.approvals)
act_all-requests_example = act_all-requests coordinator 240 (processing outside 20 ∷ []) two_items

act_all-IsAdmitted_example :
    let w =
      act_all coordinator 240
        (service (creation surroundings request) ∷ processing outside 20 ∷ [])
        (record two_items { approvals = no_proposals }) in
    All (λ p. IsAdmitted settings p.order) w.approvals.proposals
    × All IsAutomatic w.approvals.proposals
act_all-IsAdmitted_example =
    act_all-IsAdmitted coordinator 240
      (service (creation surroundings request) ∷ processing outside 20 ∷ [])
      (record two_items { approvals = no_proposals }) refl

single_ids : (k : ℕ) → id_count k two_items.queue ≤ 1
unfolding count_if
single_ids k = ground arith

single_open : open_count "NVDA" two_items.queue ≤ 1
unfolding count_if
single_open = omega arith

act_all-one_open_example :
    open_count "NVDA" (act_all coordinator 240 (processing outside 20 ∷ []) two_items).queue ≤ 1
act_all-one_open_example =
    act_all-one_open coordinator 240 "NVDA" (processing outside 20 ∷ []) two_items single_ids
      single_open

process_queue_item-steps_example :
    (q : QueueRecord Micros) × (Queue.get 20
        (process_queue_item coordinator outside 20 two_items).1.queue
      ≡ some q)
    × (QueueStatus.queued ⟶* q.status)
unfolding Queue.get
process_queue_item-steps_example =
    process_queue_item-steps coordinator outside 20 two_items (item 20 QueueStatus.queued) refl
