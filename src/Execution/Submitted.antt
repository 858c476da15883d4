-- ===== src/Execution/Submitted.antt =====
-- app/execution/coordinator.py, `_execute_with_broker`: when it returns, the proposal is executed.
use algo_trader.Prelude.{
  ℕ, String, ◌≡◌, refl, sym, ap, ◌∙◌, inl, inr, Bool, not, ◌&&◌, Option, none, some, ◌==◌,
  Bool-cases, Option-cases,
}
use mathlib.Core.Path.{subst}
use algo_trader.Result.{Result, ok, err, ok-injective}
use algo_trader.Float.{Float}
use algo_trader.Models.{TradeProposal}
use algo_trader.Broker.Router.{Choice}
use algo_trader.Risk.Context.{RiskContext}
use algo_trader.Risk.Guardrails.{validate_order}
use algo_trader.Approvals
use algo_trader.Approvals.{Clock, ProposalError, expire_if_needed, get_proposal}
use algo_trader.Approvals.Store.{get}
use algo_trader.Approvals.Rows.{get_id}
use algo_trader.Approvals.Calls.{get_proposal-none, get_proposal-some}
use algo_trader.Execution.{
  ExecutionRecord, BrokerAnswer, open_market_order_by_amount, Coordinator, Outside, World, Failure,
  is_failed_attempt,
}
use algo_trader.Execution.Attempts
use algo_trader.Execution.Records.{
  Sent, is_approved, create_execution, mirror_live_if, mirror_parallel_if, mirrored, next_mirrored,
  submitted, record_answer, perform, known_order, map_broker_execution_status, by_amount_status,
}
use algo_trader.Execution.Orders.{is_etoro, order_call}
use algo_trader.Execution.Submission.{
  of_answer, answered_attempt, trader_call, validated, submit_by_amount, submit_to_client,
  refuse_attempt, trader_answered, trader_submit, trader_checked, trader_with, execute_proposal,
  execute_with_broker,
}
use algo_trader.Execution.Once.{Done, OkDone, mark-Done, expire_if_needed-id}

module _ {F : Type 0} where
  pub get_proposal-id :
      (clock : Clock) (k : ℕ) (w : Approvals.World F) (p : TradeProposal F)
      → (get_proposal clock k w).0 ≡ ok p
      → p.id ≡ k
  get_proposal-id clock k w p e = elim (Option-cases (get k w.proposals)) [
    | inl missing ↦ cc (get_proposal-none clock k w missing)
    | inr (q, found) ↦
        let same =
          ok-injective (expire_if_needed clock q w).0 p (get_proposal clock k w).0
            (ap (λ m. m.0) (get_proposal-some clock k w q found)) e in
        sym (ap (λ (x : TradeProposal F). x.id) same)
        ∙ (expire_if_needed-id clock q w ∙ get_id k q w.proposals found)
  ]

  module _ (k : ℕ) where
    mirror_live_if-Done :
        (live : Bool) (p : TradeProposal F) (x : ExecutionRecord F) (w : World F)
        → Done k w
        → Done k (mirror_live_if live p x w)
    unfolding mirror_live_if
    mirror_live_if-Done live p x w h =
        elim (Bool-cases (live && not (is_failed_attempt x.status))) [
          | inl copied ↦ rw copied h
          | inr alone ↦ rw alone h
        ]

    mirror_parallel_if-Done :
        (m : Option (Result String (Unit {0}))) (p : TradeProposal F) (x : ExecutionRecord F)
        (w : World F)
        → Done k w
        → OkDone k (mirror_parallel_if m p x w)
    unfolding mirror_parallel_if
    mirror_parallel_if-Done none p x w h = h
    mirror_parallel_if-Done (some (ok u)) p x w h = h
    mirror_parallel_if-Done (some (err e)) p x w h = tt

    next_mirrored-Done :
        (o : Outside F) (p : TradeProposal F) (m : Result (Failure F) (ExecutionRecord F) × World F)
        → OkDone k m
        → OkDone k (next_mirrored o p m)
    unfolding mirrored
    next_mirrored-Done o p (ok x, w) h =
        mirror_parallel_if-Done o.mirror p x _ (mirror_live_if-Done o.live_mirror p x w h)
    next_mirrored-Done o p (err e, w) h = tt

    perform-Done :
        (rest : BrokerAnswer → World F → Result (Failure F) (ExecutionRecord F) × World F)
        (s : Result (Failure F) (Sent F)) (w : World F)
        → ((a : BrokerAnswer) (v : World F) → OkDone k (rest a v))
        → OkDone k (perform rest s w)
    unfolding perform
    perform-Done rest (err e) w go = tt
    perform-Done rest (ok (x, ok a)) w go = go a _
    perform-Done rest (ok (x, err e)) w go = tt

  submitted-Done :
      (o : Outside F) (p : TradeProposal F) (x : ExecutionRecord F) (w : World F)
      → OkDone p.id (submitted o p x w)
  unfolding submitted
  submitted-Done o p x w =
      next_mirrored-Done p.id o p _
        (mark-Done o.marked p.id x.id (Attempts.attribute x) (create_execution x w))

  record_answer-Done :
      (o : Outside F) (p : TradeProposal F) (old : Option (ExecutionRecord F))
      (x : ExecutionRecord F) (w : World F)
      → OkDone p.id (record_answer o p old x w)
  unfolding record_answer
  record_answer-Done o p (some old) x w = mark-Done o.marked p.id old.id old w
  record_answer-Done o p none x w = submitted-Done o p x w

module _ {F : Type 0} ⦃n : Float F⦄ (c : Coordinator F) (o : Outside F) where
  submit_by_amount-Done :
      (p : TradeProposal F) (client : ℕ) (name : Choice) (cid : String)
      (a : Option (Result String BrokerAnswer)) (w : World F)
      → OkDone p.id (submit_by_amount o p client name cid a w)
  unfolding submit_by_amount
  submit_by_amount-Done p client name cid none w = tt
  submit_by_amount-Done p client name cid (some a) w =
      perform-Done p.id (λ x v. submitted o p (of_answer o p name cid by_amount_status x) v)
        (ok (open_market_order_by_amount client p.order cid, a)) w
        (λ x v. submitted-Done o p (of_answer o p name cid by_amount_status x) v)

  submit_to_client-Done :
      (p : TradeProposal F) (client : ℕ) (name : Choice) (price : F) (cid : String)
      (a : Option (Result String BrokerAnswer)) (w : World F)
      → OkDone p.id (submit_to_client c o p client name price cid a w)
  unfolding submit_to_client
  submit_to_client-Done p client name price cid none w =
      submit_by_amount-Done p client name cid o.broker.by_amount_answer w
  submit_to_client-Done p client name price cid (some a) w =
      perform-Done p.id
        (λ x v.
          record_answer o p (known_order x.order_id v)
            (of_answer o p name cid map_broker_execution_status x) v)
        (order_call c p.order client name price cid o.broker a) w
        (λ x v.
          record_answer-Done o p (known_order x.order_id v)
            (of_answer o p name cid map_broker_execution_status x) v)

  trader_answered-Done :
      (x : ExecutionRecord F) (a : BrokerAnswer) (w : World F)
      → OkDone x.proposal_id (trader_answered o x a w)
  unfolding trader_answered
  trader_answered-Done x a w =
      mark-Done o.marked x.proposal_id x.id (answered_attempt o x a)
        (record w { executions = Attempts.update (answered_attempt o x a) w.executions })

  trader_submit-Done :
      (p : TradeProposal F) (cid : String) (w : World F) → OkDone p.id (trader_submit c o p cid w)
  unfolding trader_submit
  trader_submit-Done p cid w =
      perform-Done p.id (trader_answered o (Attempts.attribute (validated c o p cid)))
        (trader_call p.order p.order.side c.trader_broker cid o.broker)
        (create_execution (validated c o p cid) w)
        (trader_answered-Done (Attempts.attribute (validated c o p cid)))

  trader_checked-Done :
      (p : TradeProposal F) (cid : String) (x : Result String (RiskContext F)) (w : World F)
      → OkDone p.id (trader_checked c o p cid x w)
  unfolding trader_checked
  trader_checked-Done p cid (err e) w = tt
  trader_checked-Done p cid (ok context) w =
      elim (Bool-cases (validate_order c.settings.risk p.order context none).passed) [
        | inl passed ↦ rw passed (trader_submit-Done p cid w)
        | inr refused ↦ rw refused tt
      ]

  trader_with-Done :
      (k : ℕ) (cid : String) (w : World F)
      (m : Result (ProposalError F) (TradeProposal F) × Approvals.World F)
      → ((p : TradeProposal F) → m.0 ≡ ok p → p.id ≡ k)
      → OkDone k (trader_with c o cid w m)
  unfolding refuse_attempt
  trader_with-Done k cid w (err e, a) named = tt
  trader_with-Done k cid w (ok p, a) named = elim (Bool-cases (is_approved p.status)) [
    | inl approved ↦ rw approved (
        subst
          (λ j. OkDone j (trader_checked c o p cid o.trader_context (record w { approvals = a })))
          (named p refl) (trader_checked-Done p cid o.trader_context (record w { approvals = a })))
    | inr other ↦ rw other tt
  ]

  pub execute_with_broker-Done :
      (p : TradeProposal F) (client : ℕ) (name : Choice) (price : F) (cid : String) (w : World F)
      → OkDone p.id (execute_with_broker c o p client name price cid w)
  unfolding execute_with_broker execute_proposal
  execute_with_broker-Done p client name price cid w =
      elim (Bool-cases (is_etoro name && client == c.trader_broker)) [
        | inl trader ↦ rw trader (
            trader_with-Done p.id cid w (get_proposal o.trader_clock p.id w.approvals)
              (get_proposal-id o.trader_clock p.id w.approvals))
        | inr other ↦
            rw other (submit_to_client-Done p client name price cid o.broker.submit_order_answer w)
      ]
