-- ===== src/Execution/Process.antt =====
-- app/execution/coordinator.py: `_process_queue_item` up to the risk gate, and the loop over the queue.
-- The stages are functions of their own, in the order of the code.
use algo_trader.Prelude.{
  ℕ, String, Bool, true, false, Option, none, some, List, [], ◌∷◌, if◌then◌else◌, or_else, is_empty,
}
use algo_trader.Result.{Result, ok, err}
use algo_trader.Float.{Float}
use algo_trader.Models.{TradeProposal}
use algo_trader.Broker.Router.{Choice, NoBroker}
use algo_trader.Risk.Context.{RiskContext}
use algo_trader.Risk.Guardrails.{validate_order}
use algo_trader.Automation.Blocked.{Blocker}
use algo_trader.Approvals
use algo_trader.Approvals.{Clock, ProposalError, get_proposal}
use algo_trader.Execution.{
  QueueStatus, QueueRecord, ExecutionRecord, proposal_status, no_broker, risk_failed, Objection,
  AccountReason, Failure, item_not_found, index_violated, proposal_failed, raised, World, Quote,
  Coordinator, Outside, is_failed_attempt,
}
use algo_trader.Execution.Queue
use algo_trader.Execution.Attempts
use algo_trader.Execution.Checks.{
  stale_before, automation_blockers, select_broker, account_validation_reasons, quote_price,
  objections, governed,
}
use algo_trader.Execution.Records.{is_approved}
use algo_trader.Execution.Items.{
  is_final, saved, unapproved, blocked_item, executed_item, validated_item, is_recorded,
}
use algo_trader.Execution.Placement.{bracketed}

module _ {F : Type 0} ⦃n : Float F⦄ (c : Coordinator F) where
  module _ (o : Outside F) where
    -- The risk gate, and the governor on the order in memory.
    unfoldable pub gated :
        QueueRecord F
        → TradeProposal F
        → ℕ
        → Choice
        → F
        → Result String (RiskContext F)
        → World F
        → Result (Failure F) (QueueRecord F) × World F
    unfolding governed bracketed saved
    gated r p client name price (err e) w = (err (raised e), w)
    gated r p client name price (ok context) w =
        let risk = validate_order c.settings.risk p.order context o.room in
        if risk.passed
        then bracketed c o r (record p { order = governed c.settings context p.order }) client name
            price risk.room_authority w
        else saved (blocked_item o.settled (risk_failed risk.reasons) r) w

    unfoldable pub judged :
        QueueRecord F
        → TradeProposal F
        → ℕ
        → Choice
        → Quote F
        → List Objection
        → World F
        → Result (Failure F) (QueueRecord F) × World F
    unfolding gated saved quote_price
    judged r p client name q found w =
        let r' = validated_item (some (quote_price q p)) q.timestamp found r in
        if is_empty found
        then gated r' p client name (quote_price q p) o.context w
        else saved (record r' { status = QueueStatus.blocked; updated_at = o.settled }) w

    abbrev pub with_account :
        QueueRecord F
        → TradeProposal F
        → ℕ
        → Choice
        → Quote F
        → List Blocker
        → Result (Failure F) (List AccountReason) × World F
        → Result (Failure F) (QueueRecord F) × World F
    with_account r p client name q blockers (err e, w) = (err e, w)
    with_account r p client name q blockers (ok account, w) =
        judged r p client name q (objections c o p name q blockers account w) w

    unfoldable pub quoted :
        QueueRecord F
        → TradeProposal F
        → ℕ
        → Choice
        → Result String (Quote F)
        → World F
        → Result (Failure F) (QueueRecord F) × World F
    unfolding automation_blockers account_validation_reasons objections judged
    quoted r p client name (err e) w = (err (raised e), w)
    quoted r p client name (ok q) w =
        with_account r p client name q (automation_blockers c w.automation)
          (account_validation_reasons c o name w)

    unfoldable pub routed :
        QueueRecord F
        → TradeProposal F
        → Result NoBroker (ℕ × Choice)
        → World F
        → Result (Failure F) (QueueRecord F) × World F
    unfolding saved quoted
    routed r p (err e) w = saved (blocked_item o.settled (no_broker e) r) w
    routed r p (ok (client, name)) w = quoted r p client name o.quote w

    abbrev pub with_proposal :
        QueueRecord F
        → World F
        → Result (ProposalError F) (TradeProposal F) × Approvals.World F
        → Result (Failure F) (QueueRecord F) × World F
    with_proposal r w (err e, a) = (err (proposal_failed e), record w { approvals = a })
    with_proposal r w (ok p, a) =
        if is_approved p.status
        then routed r p (select_broker c p) (record w { approvals = a })
        else saved (unapproved o.settled (proposal_status p.status) r) (record w { approvals = a })

    -- The item is claimed, and is read again.
    unfoldable pub claimed_item :
        QueueRecord F → World F → Result (Failure F) (QueueRecord F) × World F
    unfolding get_proposal select_broker routed saved
    claimed_item r w = with_proposal r w (get_proposal o.proposal_clock r.proposal_id w.approvals)

    abbrev pub after_claim :
        QueueRecord F
        → World F
        → Result String (Bool × List (QueueRecord F))
        → Result (Failure F) (QueueRecord F) × World F
    after_claim r w (err symbol) = (err (index_violated symbol), w)
    after_claim r w (ok (false, rows)) =
        (ok (or_else (Queue.get r.id rows) r), record w { queue = rows })
    after_claim r w (ok (true, rows)) =
        claimed_item (or_else (Queue.get r.id rows) r) (record w { queue = rows })

    unfoldable pub try_claim :
        QueueRecord F → World F → Result (Failure F) (QueueRecord F) × World F
    unfolding Queue.claim_for_processing Queue.get stale_before claimed_item
    try_claim r w =
        if is_final r.status
        then (ok r, w)
        else after_claim r w (
            Queue.claim_for_processing
              (stale_before c.settings.workflow_lock_timeout_minutes o.stale_checked) o.claimed r.id
              w.queue)

    -- An execution of the proposal that has not failed settles the item.
    abbrev pub with_latest :
        QueueRecord F
        → World F
        → Option (ExecutionRecord F)
        → Result (Failure F) (QueueRecord F) × World F
    with_latest r w none = try_claim r w
    with_latest r w (some x) =
        if is_failed_attempt x.status
        then try_claim r w
        else saved (executed_item o.settled (or_else r.executed_at x.updated_at) x.id r) w

    unfoldable pub consider : QueueRecord F → World F → Result (Failure F) (QueueRecord F) × World F
    unfolding is_recorded try_claim saved Attempts.get_latest_by_proposal_id
    consider r w =
        if is_recorded r w
        then (ok r, w)
        else with_latest r w (Attempts.get_latest_by_proposal_id r.proposal_id w.executions)

    unfoldable pub process_queue_item : ℕ → World F → Result (Failure F) (QueueRecord F) × World F
    unfolding Queue.get consider
    process_queue_item k w = elim (Queue.get k w.queue) [
      | none ↦ (err (item_not_found k), w)
      | some r ↦ consider r w
    ]

  -- The loop ends at the first item that raises; the rest is taken from the state it would leave.
  abbrev pub process_next :
      Result (Failure F) (QueueRecord F) × World F
      → Result (Failure F) (List (QueueRecord F)) × World F
      → Result (Failure F) (List (QueueRecord F)) × World F
  process_next (err e, w) rest = (err e, w)
  process_next (ok r, w) (ok rs, v) = (ok (r ∷ rs), v)
  process_next (ok r, w) (err e, v) = (err e, v)

  -- `o` gives the answers of each item's pass.
  unfoldable pub process_each :
      (ℕ → Outside F)
      → List (QueueRecord F)
      → World F
      → Result (Failure F) (List (QueueRecord F)) × World F
  unfolding process_queue_item
  process_each o [] w = (ok [], w)
  process_each o (r ∷ rs) w =
      let first = process_queue_item (o r.id) r.id w in
      process_next first (process_each o rs first.1)

  unfoldable pub process_ready_queue :
      (ℕ → Outside F) → ℕ → World F → Result (Failure F) (List (QueueRecord F)) × World F
  unfolding process_each Queue.list
  process_ready_queue o limit w = process_each o (Queue.list QueueStatus.queued limit w.queue) w
