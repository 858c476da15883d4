-- ===== src/Execution/Keeps.antt =====
-- app/execution: what the submission of an order changes of the state, as a rule for invariants. A
-- property that the single changes keep is kept by `_execute_with_broker` and `execute_proposal`.
use algo_trader.Prelude.{
  ℕ, String, ◌≡◌, inl, inr, Bool, true, false, not, ◌&&◌, Option, none, some, List, ◌==◌,
  Bool-cases,
}
use algo_trader.Result.{Result, ok, err}
use algo_trader.Float.{Float}
use algo_trader.Models.{TradeOrder, TradeProposal}
use algo_trader.Broker.Router.{Choice}
use algo_trader.Risk.Context.{RiskContext}
use algo_trader.Risk.Guardrails.{validate_order}
use algo_trader.Automation
use algo_trader.Approvals
use algo_trader.Approvals.{Clock, ProposalError, get_proposal, mark_executed}
use algo_trader.Execution.{
  not_approved, risk_refused, open_market_order_by_amount, QueueStatus, QueueRecord,
  ExecutionRecord, BrokerAnswer, Call, mirror_live, Coordinator, Outside, World, Failure,
  is_failed_attempt,
}
use algo_trader.Execution.Queue
use algo_trader.Execution.Records.{
  known_order, map_broker_execution_status, by_amount_status, Sent, is_approved, called,
  create_execution, marked_result, mark, mirror_live_if, mirror_parallel_if, mirrored,
  next_mirrored, submitted, record_answer, perform,
}
use algo_trader.Execution.Orders.{is_etoro, order_call}
use algo_trader.Execution.Attempts
use algo_trader.Execution.Submission.{
  of_answer, answered_attempt, validated, trader_call, submit_by_amount, submit_to_client,
  refuse_attempt, trader_answered, trader_submit, trader_checked, trader_with, execute_proposal,
  execute_with_broker,
}

-- What a pass sets at its end.
abbrev pub is_outcome : QueueStatus → Bool
is_outcome QueueStatus.executed = true
is_outcome QueueStatus.blocked = true
is_outcome _ = false

module _ {F : Type 0} where
  -- A property of the state that the single changes of one pass keep.
  pub record Keeps (Q : World F → Type 0) : Type 0 where
    pub executions :
        (xs : List (ExecutionRecord F)) (w : World F) → Q w → Q (record w { executions = xs })
    pub call : (x : Call F) (w : World F) → Q w → Q (called x w)
    pub automation : (a : Automation.World) (w : World F) → Q w → Q (record w { automation = a })
    pub reading :
        (clock : Clock) (k : ℕ) (w : World F)
        → Q w
        → Q (record w { approvals = (get_proposal clock k w.approvals).1 })
    pub marking :
        (clock : Clock) (k x : ℕ) (w : World F)
        → Q w
        → Q (record w { approvals = (mark_executed clock k x w.approvals).1 })
    pub settling :
        (r : QueueRecord F) (w : World F)
        → is_outcome r.status ≡ true
        → Q w
        → Q (record w { queue = Queue.update r w.queue })
    pub claiming :
        (stale now k : ℕ) (b : Bool) (rows : List (QueueRecord F)) (w : World F)
        → Queue.claim_for_processing stale now k w.queue ≡ ok (b, rows)
        → Q w
        → Q (record w { queue = rows })

  module _ (Q : World F → Type 0) (keeps : Keeps Q) where
    marked_kept :
        {A : Type 0} (x : A) (w : World F)
        (m : Result (ProposalError F) (TradeProposal F) × Approvals.World F)
        → Q (record w { approvals = m.1 })
        → Q (marked_result x w m).1
    marked_kept x w (ok p, a) h = h
    marked_kept x w (err e, a) h = h

    pub mark_kept :
        {A : Type 0} (clock : Clock) (k e : ℕ) (x : A) (w : World F)
        → Q w
        → Q (mark clock k e x w).1
    unfolding mark
    mark_kept clock k e x w h =
        marked_kept x w (mark_executed clock k e w.approvals) (keeps.marking clock k e w h)

    mirror_live_if_kept :
        (live : Bool) (p : TradeProposal F) (x : ExecutionRecord F) (w : World F)
        → Q w
        → Q (mirror_live_if live p x w)
    unfolding mirror_live_if
    mirror_live_if_kept live p x w h =
        elim (Bool-cases (live && not (is_failed_attempt x.status))) [
          | inl copied ↦ rw copied (keeps.call (mirror_live p.id x.id) w h)
          | inr alone ↦ rw alone h
        ]

    mirror_parallel_if_kept :
        (m : Option (Result String (Unit {0}))) (p : TradeProposal F) (x : ExecutionRecord F)
        (w : World F)
        → Q w
        → Q (mirror_parallel_if m p x w).1
    unfolding mirror_parallel_if
    mirror_parallel_if_kept none p x w h = h
    mirror_parallel_if_kept (some (ok u)) p x w h = keeps.call _ w h
    mirror_parallel_if_kept (some (err e)) p x w h = keeps.call _ w h

    mirrored_kept :
        (o : Outside F) (p : TradeProposal F) (x : ExecutionRecord F) (w : World F)
        → Q w
        → Q (mirrored o p x w).1
    unfolding mirrored
    mirrored_kept o p x w h =
        mirror_parallel_if_kept o.mirror p x _ (mirror_live_if_kept o.live_mirror p x w h)

    next_mirrored_kept :
        (o : Outside F) (p : TradeProposal F) (m : Result (Failure F) (ExecutionRecord F) × World F)
        → Q m.1
        → Q (next_mirrored o p m).1
    next_mirrored_kept o p (ok x, w) h = mirrored_kept o p x w h
    next_mirrored_kept o p (err e, w) h = h

    pub create_execution_kept :
        (x : ExecutionRecord F) (w : World F) → Q w → Q (create_execution x w)
    unfolding create_execution
    create_execution_kept x w h = keeps.executions _ w h

    submitted_kept :
        (o : Outside F) (p : TradeProposal F) (x : ExecutionRecord F) (w : World F)
        → Q w
        → Q (submitted o p x w).1
    unfolding submitted
    submitted_kept o p x w h =
        next_mirrored_kept o p _ (mark_kept o.marked p.id x.id _ _ (create_execution_kept x w h))

    record_answer_kept :
        (o : Outside F) (p : TradeProposal F) (old : Option (ExecutionRecord F))
        (x : ExecutionRecord F) (w : World F)
        → Q w
        → Q (record_answer o p old x w).1
    unfolding record_answer
    record_answer_kept o p (some old) x w h = mark_kept o.marked p.id old.id old w h
    record_answer_kept o p none x w h = submitted_kept o p x w h

    perform_kept :
        (rest : BrokerAnswer → World F → Result (Failure F) (ExecutionRecord F) × World F)
        (s : Result (Failure F) (Sent F)) (w : World F)
        → ((a : BrokerAnswer) (v : World F) → Q v → Q (rest a v).1)
        → Q w
        → Q (perform rest s w).1
    unfolding perform
    perform_kept rest (err e) w go h = h
    perform_kept rest (ok (x, ok a)) w go h = go a _ (keeps.call x w h)
    perform_kept rest (ok (x, err e)) w go h = keeps.call x w h

    module _ ⦃n : Float F⦄ (c : Coordinator F) (o : Outside F) where
      submit_by_amount_kept :
          (p : TradeProposal F) (client : ℕ) (name : Choice) (cid : String)
          (a : Option (Result String BrokerAnswer)) (w : World F)
          → Q w
          → Q (submit_by_amount o p client name cid a w).1
      unfolding submit_by_amount
      submit_by_amount_kept p client name cid none w h = h
      submit_by_amount_kept p client name cid (some a) w h =
          perform_kept (λ x v. submitted o p (of_answer o p name cid by_amount_status x) v)
            (ok (open_market_order_by_amount client p.order cid, a)) w
            (λ x v k. submitted_kept o p (of_answer o p name cid by_amount_status x) v k) h

      submit_to_client_kept :
          (p : TradeProposal F) (client : ℕ) (name : Choice) (price : F) (cid : String)
          (a : Option (Result String BrokerAnswer)) (w : World F)
          → Q w
          → Q (submit_to_client c o p client name price cid a w).1
      unfolding submit_to_client
      submit_to_client_kept p client name price cid none w h =
          submit_by_amount_kept p client name cid o.broker.by_amount_answer w h
      submit_to_client_kept p client name price cid (some a) w h =
          perform_kept
            (λ x v.
              record_answer o p (known_order x.order_id v)
                (of_answer o p name cid map_broker_execution_status x) v)
            (order_call c p.order client name price cid o.broker a) w
            (λ x v k.
              record_answer_kept o p (known_order x.order_id v)
                (of_answer o p name cid map_broker_execution_status x) v k)
            h

      refuse_attempt_kept :
          (p : TradeProposal F) (request : Option (TradeOrder F × String)) (e : Failure F)
          (w : World F)
          → Q w
          → Q (refuse_attempt c o p request e w).1
      unfolding refuse_attempt
      refuse_attempt_kept p request e w h = keeps.executions _ w h

      trader_answered_kept :
          (x : ExecutionRecord F) (a : BrokerAnswer) (w : World F)
          → Q w
          → Q (trader_answered o x a w).1
      unfolding trader_answered
      trader_answered_kept x a w h =
          mark_kept o.marked x.proposal_id x.id (answered_attempt o x a) _ (keeps.executions _ w h)

      trader_submit_kept :
          (p : TradeProposal F) (cid : String) (w : World F) → Q w → Q (trader_submit c o p cid w).1
      unfolding trader_submit
      trader_submit_kept p cid w h =
          perform_kept (trader_answered o (Attempts.attribute (validated c o p cid)))
            (trader_call p.order p.order.side c.trader_broker cid o.broker) _
            (trader_answered_kept (Attempts.attribute (validated c o p cid)))
            (keeps.executions _ w h)

      trader_checked_kept :
          (p : TradeProposal F) (cid : String) (x : Result String (RiskContext F)) (w : World F)
          → Q w
          → Q (trader_checked c o p cid x w).1
      unfolding trader_checked
      trader_checked_kept p cid (err e) w h = h
      trader_checked_kept p cid (ok context) w h =
          elim (Bool-cases (validate_order c.settings.risk p.order context none).passed) [
            | inl passed ↦ rw passed (trader_submit_kept p cid w h)
            | inr refused ↦ rw refused (
                refuse_attempt_kept p (some (p.order, cid))
                  (risk_refused (validate_order c.settings.risk p.order context none).reasons) w h)
          ]

      trader_with_kept :
          (cid : String) (w : World F)
          (m : Result (ProposalError F) (TradeProposal F) × Approvals.World F)
          → Q (record w { approvals = m.1 })
          → Q (trader_with c o cid w m).1
      trader_with_kept cid w (err e, a) h = h
      trader_with_kept cid w (ok p, a) h = elim (Bool-cases (is_approved p.status)) [
        | inl approved ↦ rw approved (trader_checked_kept p cid o.trader_context _ h)
        | inr other ↦ rw other (refuse_attempt_kept p none not_approved _ h)
      ]

      pub execute_with_broker_kept :
          (p : TradeProposal F) (client : ℕ) (name : Choice) (price : F) (cid : String)
          (w : World F)
          → Q w
          → Q (execute_with_broker c o p client name price cid w).1
      unfolding execute_with_broker execute_proposal
      execute_with_broker_kept p client name price cid w h =
          elim (Bool-cases (is_etoro name && client == c.trader_broker)) [
            | inl trader ↦
                rw trader (trader_with_kept cid w _ (keeps.reading o.trader_clock p.id w h))
            | inr other ↦
                rw other
                  (submit_to_client_kept p client name price cid o.broker.submit_order_answer w h)
          ]
