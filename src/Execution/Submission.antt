-- ===== src/Execution/Submission.antt =====
-- app/execution/coordinator.py, `_execute_with_broker`, and app/execution/trader.py,
-- `execute_proposal`: an order goes to a broker, and its execution is recorded.
use algo_trader.Prelude.{ℕ, String, ◌&&◌, Option, none, some, ◌==◌, if◌then◌else◌}
use algo_trader.Result.{Result, ok, err}
use algo_trader.Float.{Float}
use algo_trader.Models.{OrderSide, TradeOrder, TradeProposal}
use algo_trader.Broker.Router.{Choice}
use algo_trader.Risk.Context.{RiskContext}
use algo_trader.Risk.Guardrails.{validate_order}
use algo_trader.Approvals
use algo_trader.Approvals.{Clock, ProposalError, get_proposal, mark_executed}
use algo_trader.Execution.{
  ExecutionStatus, ExecutionRecord, BrokerAnswer, BrokerApi, open_market_order_by_amount,
  close_position, Coordinator, Outside, World, Failure, not_approved, proposal_failed, risk_refused,
  no_submission_method, raised, answered, etoro_answered,
}
use algo_trader.Execution.Attempts
use algo_trader.Execution.Records.{
  Sent, is_approved, map_broker_status, map_broker_execution_status, by_amount_status,
  create_execution, mark, submitted, known_order, record_answer, blank, perform,
}
use algo_trader.Execution.Orders.{is_etoro, order_call}

module _ {F : Type 0} ⦃n : Float F⦄ where
  -- The execution under `submit_order` and the like, and under `open_market_order_by_amount`.
  abbrev pub of_answer :
      Outside F
      → TradeProposal F
      → Choice
      → String
      → (String → ExecutionStatus)
      → BrokerAnswer
      → ExecutionRecord F
  of_answer o p name cid status a = record (blank o.attempted o.execution_id p cid a.mode) {
    status = status a.status;
    broker_order_id = a.order_id;
    response = answered name a;
  }

  -- `open_market_order_by_amount`, where the client has it
  unfoldable pub submit_by_amount :
      Outside F
      → TradeProposal F
      → ℕ
      → Choice
      → String
      → Option (Result String BrokerAnswer)
      → World F
      → Result (Failure F) (ExecutionRecord F) × World F
  unfolding perform by_amount_status submitted
  submit_by_amount o p client name cid none w = (err no_submission_method, w)
  submit_by_amount o p client name cid (some answer) w =
      perform (λ a v. submitted o p (of_answer o p name cid by_amount_status a) v)
        (ok (open_market_order_by_amount client p.order cid, answer)) w

  -- `submit_order` and the like, where the client has it
  unfoldable pub submit_to_client :
      Coordinator F
      → Outside F
      → TradeProposal F
      → ℕ
      → Choice
      → F
      → String
      → Option (Result String BrokerAnswer)
      → World F
      → Result (Failure F) (ExecutionRecord F) × World F
  unfolding order_call perform map_broker_execution_status known_order record_answer
      submit_by_amount
  submit_to_client c o p client name price cid none w =
      submit_by_amount o p client name cid o.broker.by_amount_answer w
  submit_to_client c o p client name price cid (some plain) w =
      perform
        (λ a v.
          record_answer o p (known_order a.order_id v)
            (of_answer o p name cid map_broker_execution_status a) v)
        (order_call c p.order client name price cid o.broker plain) w

  -- `TraderService.execute_proposal`: a blocked attempt is recorded before it raises.
  unfoldable pub refuse_attempt :
      Coordinator F
      → Outside F
      → TradeProposal F
      → Option (TradeOrder F × String)
      → Failure F
      → World F
      → Result (Failure F) (ExecutionRecord F) × World F
  unfolding create_execution
  refuse_attempt c o p request e w = (
    err e,
    create_execution
        (record (blank o.attempted o.execution_id p "" c.settings.etoro_account_mode) {
          status = ExecutionStatus.blocked;
          request = request;
          error_message = some e;
        })
        w,
  )

  -- `open_market_order_by_amount` or `close_position`, of the trader's broker
  abbrev pub trader_call :
      TradeOrder F → OrderSide → ℕ → String → BrokerApi → Result (Failure F) (Sent F)
  trader_call order OrderSide.sell client cid api =
      ok (close_position client order.symbol, api.close_answer)
  trader_call order OrderSide.buy client cid api = elim api.by_amount_answer [
    | some answer ↦ ok (open_market_order_by_amount client order cid, answer)
    | none ↦ err no_submission_method
  ]

  abbrev pub answered_attempt : Outside F → ExecutionRecord F → BrokerAnswer → ExecutionRecord F
  unfolding map_broker_status
  answered_attempt o x a = record x {
    status = map_broker_status a.status;
    broker_order_id = a.order_id;
    response = etoro_answered a;
    updated_at = o.answered_at;
  }

  -- The row is updated with the answer, and the proposal is marked.
  unfoldable pub trader_answered :
      Outside F
      → ExecutionRecord F
      → BrokerAnswer
      → World F
      → Result (Failure F) (ExecutionRecord F) × World F
  unfolding map_broker_status mark Attempts.update
  trader_answered o x a w =
      let y = answered_attempt o x a in
      mark o.marked x.proposal_id x.id y (record w { executions = Attempts.update y w.executions })

  abbrev pub validated : Coordinator F → Outside F → TradeProposal F → String → ExecutionRecord F
  validated c o p cid =
      record (blank o.attempted o.execution_id p cid c.settings.etoro_account_mode) {
        status = ExecutionStatus.validated;
      }

  unfoldable pub trader_submit :
      Coordinator F
      → Outside F
      → TradeProposal F
      → String
      → World F
      → Result (Failure F) (ExecutionRecord F) × World F
  unfolding trader_answered perform create_execution
  trader_submit c o p cid w =
      perform (trader_answered o (Attempts.attribute (validated c o p cid)))
        (trader_call p.order p.order.side c.trader_broker cid o.broker)
        (create_execution (validated c o p cid) w)

  -- With the proposal as it is stored, the account is asked and the gate decides again.
  unfoldable pub trader_checked :
      Coordinator F
      → Outside F
      → TradeProposal F
      → String
      → Result String (RiskContext F)
      → World F
      → Result (Failure F) (ExecutionRecord F) × World F
  unfolding refuse_attempt trader_submit
  trader_checked c o p cid (err e) w = (err (raised e), w)
  trader_checked c o p cid (ok context) w =
      let risk = validate_order c.settings.risk p.order context none in
      if risk.passed
      then trader_submit c o p cid w
      else refuse_attempt c o p (some (p.order, cid)) (risk_refused risk.reasons) w

  abbrev pub trader_with :
      Coordinator F
      → Outside F
      → String
      → World F
      → Result (ProposalError F) (TradeProposal F) × Approvals.World F
      → Result (Failure F) (ExecutionRecord F) × World F
  trader_with c o cid w (err e, a) = (err (proposal_failed e), record w { approvals = a })
  trader_with c o cid w (ok p, a) =
      if is_approved p.status
      then trader_checked c o p cid o.trader_context (record w { approvals = a })
      else refuse_attempt c o p none not_approved (record w { approvals = a })

  unfoldable pub execute_proposal :
      Coordinator F
      → Outside F
      → ℕ
      → String
      → World F
      → Result (Failure F) (ExecutionRecord F) × World F
  unfolding get_proposal trader_checked refuse_attempt
  execute_proposal c o k cid w = trader_with c o cid w (get_proposal o.trader_clock k w.approvals)

  -- `_execute_with_broker`
  unfoldable pub execute_with_broker :
      Coordinator F
      → Outside F
      → TradeProposal F
      → ℕ
      → Choice
      → F
      → String
      → World F
      → Result (Failure F) (ExecutionRecord F) × World F
  unfolding execute_proposal submit_to_client
  execute_with_broker c o p client name price cid w =
      if is_etoro name && client == c.trader_broker
      then execute_proposal c o p.id cid w
      else submit_to_client c o p client name price cid o.broker.submit_order_answer w
