-- ===== src/Execution/OneOrder.antt =====
-- app/approvals/service.py and app/execution/coordinator.py together: how often the coordinator sends
-- something for one proposal.
use algo_trader.Prelude.{
  ℕ, String, ◌≡◌, refl, sym, ap, ◌∙◌, ◌≢◌, inl, inr, Bool, true, false, Option, none, some, List,
  Bool-cases, Option-cases, or_else, All,
}
use algo_trader.Result.{Result, ok, err, ok-injective}
use algo_trader.Float.{Float}
use algo_trader.Models.{ApprovalStatus, TradeProposal}
use algo_trader.Approvals
use algo_trader.Approvals.{Clock, ProposalError, is_open, is_stale, expire_if_needed, get_proposal}
use algo_trader.Approvals.Store.{get}
use algo_trader.Approvals.Rows.{get_id, All-get}
use algo_trader.Approvals.Calls.{get_proposal-none, get_proposal-some}
use algo_trader.Execution.{
  QueueStatus, QueueRecord, ExecutionRecord, Failure, Call, World, Coordinator, Outside,
  is_failed_attempt,
}
use algo_trader.Execution.Queue
use algo_trader.Execution.Queue.Claims
use algo_trader.Execution.Checks.{stale_before}
use algo_trader.Execution.Items.{is_final, saved, is_recorded}
use algo_trader.Execution.Process.{
  with_proposal, claimed_item, after_claim, try_claim, with_latest, consider, process_queue_item,
}
use algo_trader.Execution.Invariants.{process_queue_item-some}
use algo_trader.Execution.Actions.{Action, act_all, Serves, act_all_kept}
use algo_trader.Execution.Once.{IsDone, Done, IsFresh, step-Done, Keeps-Done}
use algo_trader.Execution.Exposure.{Exposed, consider-Exposed}

module _ {F : Type 0} where
  not_stale :
      (t : ℕ) (p : TradeProposal F) → p.status ≡ ApprovalStatus.executed → is_stale t p ≡ false
  unfolding is_stale
  not_stale t p e = rw e refl

  expire_if_needed-executed :
      (clock : Clock) (p : TradeProposal F) (w : Approvals.World F)
      → p.status ≡ ApprovalStatus.executed
      → (expire_if_needed clock p w).0.status ≡ ApprovalStatus.executed
  unfolding expire_if_needed
  expire_if_needed-executed clock p w e = rw (not_stale clock.checked p e) e

  -- A proposal that is done is read as executed.
  get_proposal-executed :
      (clock : Clock) (k : ℕ) (w : Approvals.World F) (p : TradeProposal F)
      → All (IsDone k) w.proposals
      → (get_proposal clock k w).0 ≡ ok p
      → p.status ≡ ApprovalStatus.executed
  get_proposal-executed clock k w p done e = elim (Option-cases (get k w.proposals)) [
    | inl missing ↦ cc (get_proposal-none clock k w missing)
    | inr (q, found) ↦
        let same =
          ok-injective (expire_if_needed clock q w).0 p (get_proposal clock k w).0
            (ap (λ m. m.0) (get_proposal-some clock k w q found)) e in
        sym (ap (λ (x : TradeProposal F). x.status) same)
        ∙ expire_if_needed-executed clock q w
            (All-get (IsDone k) k q w.proposals found done (get_id k q w.proposals found))
  ]

module _ {F : Type 0} ⦃n : Float F⦄ (c : Coordinator F) (o : Outside F) where
  with_proposal-quiet :
      (r : QueueRecord F) (w : World F)
      (m : Result (ProposalError F) (TradeProposal F) × Approvals.World F)
      → ((p : TradeProposal F) → m.0 ≡ ok p → p.status ≡ ApprovalStatus.executed)
      → (with_proposal c o r w m).1.calls ≡ w.calls
  unfolding saved
  with_proposal-quiet r w (err e, a) executed = refl
  with_proposal-quiet r w (ok p, a) executed = rw (executed p refl) refl

  claimed_item-quiet :
      (r : QueueRecord F) (w : World F)
      → Done r.proposal_id w
      → (claimed_item c o r w).1.calls ≡ w.calls
  unfolding claimed_item
  claimed_item-quiet r w done =
      with_proposal-quiet r w (get_proposal o.proposal_clock r.proposal_id w.approvals)
        (λ p. get_proposal-executed o.proposal_clock r.proposal_id w.approvals p done)

  after_claim-quiet :
      (r : QueueRecord F) (w : World F) (m : Result String (Bool × List (QueueRecord F)))
      → ((rows : List (QueueRecord F))
          → m ≡ ok (true, rows)
          → Done (or_else (Queue.get r.id rows) r).proposal_id w)
      → (after_claim c o r w m).1.calls ≡ w.calls
  after_claim-quiet r w (err symbol) done = refl
  after_claim-quiet r w (ok (false, rows)) done = refl
  after_claim-quiet r w (ok (true, rows)) done =
      claimed_item-quiet (or_else (Queue.get r.id rows) r) (record w { queue = rows })
        (done rows refl)

  module _ (r : QueueRecord F) (w : World F) (found : Queue.get r.id w.queue ≡ some r)
      (done : Done r.proposal_id w) where
    try_claim-quiet : (try_claim c o r w).1.calls ≡ w.calls
    unfolding try_claim
    try_claim-quiet =
        let stale = stale_before c.settings.workflow_lock_timeout_minutes o.stale_checked in
        elim (Bool-cases (is_final r.status)) [
          | inl settled ↦ rw settled refl
          | inr pending ↦ rw pending (
              after_claim-quiet r w (Queue.claim_for_processing stale o.claimed r.id w.queue)
                (λ rows e.
                  rw (Claims.claim-proposal_id stale o.claimed r w.queue found rows e) done))
        ]

    with_latest-quiet : (x : Option (ExecutionRecord F)) → (with_latest c o r w x).1.calls ≡ w.calls
    unfolding saved
    with_latest-quiet none = try_claim-quiet
    with_latest-quiet (some x) = elim (Bool-cases (is_failed_attempt x.status)) [
      | inl failed ↦ rw failed try_claim-quiet
      | inr alive ↦ rw alive refl
    ]

    consider-quiet : (consider c o r w).1.calls ≡ w.calls
    unfolding consider
    consider-quiet = elim (Bool-cases (is_recorded r w)) [
      | inl recorded ↦ rw recorded refl
      | inr fresh ↦ rw fresh (with_latest-quiet _)
    ]

  Exposed-Done :
      (k : ℕ) (calls : List (Call F)) (m : Result (Failure F) (QueueRecord F) × World F)
      (r : QueueRecord F)
      → Exposed c o k calls m
      → m.0 ≡ ok r
      → r.status ≡ QueueStatus.executed
      → m.1.calls ≢ calls
      → Done k m.1
  Exposed-Done k calls (ok q, w) r h e executed sent =
      h (ap (λ (x : QueueRecord F). x.status) (ok-injective q r (ok q) refl e) ∙ executed) sent
  Exposed-Done k calls (err e, w) r h f executed sent = cc

  -- A pass that sent something and ended with the item executed leaves the proposal executed.
  process_queue_item-Done :
      (j : ℕ) (w : World F) (r r' : QueueRecord F)
      → Queue.get j w.queue ≡ some r
      → (process_queue_item c o j w).0 ≡ ok r'
      → r'.status ≡ QueueStatus.executed
      → (process_queue_item c o j w).1.calls ≢ w.calls
      → Done r.proposal_id (process_queue_item c o j w).1
  process_queue_item-Done j w r r' found returned executed sent =
      Exposed-Done r.proposal_id w.calls (process_queue_item c o j w) r'
        (rw (process_queue_item-some c o j w r found)
          (consider-Exposed c o r w (Claims.get-own_id j r w.queue found)))
        returned executed sent

  process_queue_item-quiet :
      (j : ℕ) (w : World F) (r : QueueRecord F)
      → Queue.get j w.queue ≡ some r
      → Done r.proposal_id w
      → (process_queue_item c o j w).1.calls ≡ w.calls
  process_queue_item-quiet j w r found done =
      rw (process_queue_item-some c o j w r found)
        (consider-quiet r w (Claims.get-own_id j r w.queue found) done)

module _ {F : Type 0} ⦃n : Float F⦄ (c : Coordinator F) (expiry_minutes : ℕ) where
  -- Once a pass over a queue item has sent something and has returned the item as executed, no later
  -- pass over any item of the same proposal sends anything, whatever calls of the approval service and
  -- of the coordinator lie between them, as long as no new proposal takes the proposal's id.
  pub process_queue_item-once :
      (o later : Outside F) (j j' : ℕ) (w : World F) (r done r' : QueueRecord F)
      (between : List (Action F))
      → Queue.get j w.queue ≡ some r
      → (process_queue_item c o j w).0 ≡ ok done
      → done.status ≡ QueueStatus.executed
      → (process_queue_item c o j w).1.calls ≢ w.calls
      → All (Serves (IsFresh c.settings.risk expiry_minutes r.proposal_id)) between
      → let v = act_all c expiry_minutes between (process_queue_item c o j w).1 in
        Queue.get j' v.queue ≡ some r'
        → r'.proposal_id ≡ r.proposal_id
        → (process_queue_item c later j' v).1.calls ≡ v.calls
  process_queue_item-once o later j j' w r done r' between found returned executed sent fresh again
        same =
      let k = r.proposal_id in
      process_queue_item-quiet c later j' _ r' again (
        rw same (
          act_all_kept c expiry_minutes (Done k) (Keeps-Done c.settings.risk expiry_minutes k)
            (λ q rows v e h. h) (IsFresh c.settings.risk expiry_minutes k)
            (λ q v fits h. step-Done c.settings.risk expiry_minutes k q v.approvals fits h) between
            (process_queue_item c o j w).1 fresh
            (process_queue_item-Done c o j w r done found returned executed sent)))
