-- ===== src/Execution/Guarded.antt =====
-- app/execution/coordinator.py: what holds whenever a pass of `process_queue_item` sends anything.
pub mod Account
pub mod Stages
pub mod Claimed
use algo_trader.Prelude.{ℕ, ◌<◌, ◌≡◌, refl, ◌≢◌, inl, inr, true, false, some, [], Option-cases}
use algo_trader.Result.{ok}
use algo_trader.Float.{Float}
use algo_trader.Models.{ApprovalStatus, TradeProposal}
use algo_trader.Broker.Router.{Choice}
use algo_trader.Risk.Context.{RiskContext}
use algo_trader.Risk.Guardrails.{validate_order}
use algo_trader.Approvals.Store.{get}
use algo_trader.Execution.{QueueRecord, World, Quote, Coordinator, Outside}
use algo_trader.Execution.Queue
use algo_trader.Execution.Queue.{is_claimable}
use algo_trader.Execution.Queue.Claims
use algo_trader.Execution.Attempts
use algo_trader.Execution.Checks.{
  stale_before, automation_blockers, select_broker, account_validation_reasons, quote_price,
  quote_validation_reasons, count_and_drift, governed,
}
use algo_trader.Execution.Items.{is_recorded}
use algo_trader.Execution.Placement.{bracket_reasons}
use algo_trader.Execution.Process.{process_queue_item}
use algo_trader.Execution.Invariants.{process_queue_item-none, process_queue_item-some}
use algo_trader.Execution.Guarded.Claimed.{IsRetriable, consider-sent}

module _ {F : Type 0} ⦃n : Float F⦄ (c : Coordinator F) (o : Outside F) where
  -- What the checks of a pass over the item r of the proposal p found: the broker, the quote and the
  -- account's context, that nothing was sent before, and that nothing stood against the order.
  pub record IsCleared (w : World F) (r : QueueRecord F) (p : TradeProposal F) (client : ℕ)
      (name : Choice) (q : Quote F) (x : RiskContext F) : Type 0 where
    pub unrecorded : is_recorded r w ≡ false
    pub retriable : IsRetriable (Attempts.get_latest_by_proposal_id r.proposal_id w.executions)
    pub claimable :
        is_claimable
          (stale_before c.settings.workflow_lock_timeout_minutes o.stale_checked)
          r.status
          r.updated_at
        ≡ true
    pub stored : get r.proposal_id w.approvals.proposals ≡ some p
    pub approved : p.status ≡ ApprovalStatus.approved
    pub unexpired : o.proposal_clock.checked < p.expires_at
    pub brokered : select_broker c p ≡ ok (client, name)
    pub priced : o.quote ≡ ok q
    pub unblocked : automation_blockers c w.automation ≡ []
    pub accepted : (account_validation_reasons c o name w).0 ≡ ok []
    pub sound : quote_validation_reasons c.settings q name ≡ []
    pub directed : o.direction ≡ []
    pub free : o.held ≡ []
    pub within : count_and_drift c o p (quote_price q p) w ≡ []
    pub known : o.context ≡ ok x
    pub passed : (validate_order c.settings.risk p.order x o.room).passed ≡ true
    pub bracketed :
        bracket_reasons c o
          (record p { order = governed c.settings x p.order })
          name
          (quote_price q p)
        ≡ []

  -- A pass over a queue item sends an order, opens a paper position or copies one only if the item is
  -- there, names no execution that is stored and could be claimed, the latest execution of its proposal,
  -- if any, has failed, the proposal is stored as approved and has not expired, a broker is chosen for
  -- it, no automation flag blocks executions, the account and the quote are accepted, neither the
  -- market's direction nor a holding of the live account stands against it, the trades of the day and
  -- the drift of the entry are within bounds, the risk gate passes the order again, and the bracket at
  -- the quote, with the amount that the governor leaves, has no objection.
  pub process_queue_item-IsCleared :
      (k : ℕ) (w : World F)
      → (process_queue_item c o k w).1.calls ≢ w.calls
      → (r : QueueRecord F) × (p : TradeProposal F) × (client : ℕ) × (name : Choice) × (q : Quote F)
        × (x : RiskContext F) × (Queue.get k w.queue ≡ some r)
        × IsCleared w r p client name q x
  process_queue_item-IsCleared k w sent = elim (Option-cases (Queue.get k w.queue)) [
    | inl missing ↦ absurd ((rw (process_queue_item-none c o k w missing) at sent) refl)
    | inr (r, found) ↦
        let (unrecorded, retriable, (claimable, cleared)) =
          consider-sent c o r w (Claims.get-own_id k r w.queue found)
            (rw (process_queue_item-some c o k w r found) at sent) in
        let (p, stored, approved, unexpired, (client, name, brokered, checked)) = cleared in
        let (
          q,
          priced,
          blockers,
          accepted,
          sound,
          directed,
          free,
          within,
          (x, known, passed, bracket),
        ) =
          checked in
        (
          r,
          p,
          client,
          name,
          q,
          x,
          found,
          record {
            unrecorded = unrecorded;
            retriable = retriable;
            claimable = claimable;
            stored = stored;
            approved = approved;
            unexpired = unexpired;
            brokered = brokered;
            priced = priced;
            unblocked = blockers;
            accepted = accepted;
            sound = sound;
            directed = directed;
            free = free;
            within = within;
            known = known;
            passed = passed;
            bracketed = bracket;
          },
        )
  ]
