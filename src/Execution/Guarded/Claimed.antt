-- ===== src/Execution/Guarded/Claimed.antt =====
-- app/execution/coordinator.py: what the stages up to the choice of the broker have found, if the pass
-- sends anything.
use algo_trader.Prelude.{
  ℕ, ◌<◌, String, ◌≡◌, refl, sym, ap, ◌∙◌, ◌≢◌, inl, inr, Bool, true, false, Option, none, some,
  List, Bool-cases, or_else,
}
use algo_trader.Result.{Result, ok, err}
use algo_trader.Float.{Float}
use algo_trader.Models.{ApprovalStatus, TradeProposal}
use algo_trader.Broker.Router.{Choice, NoBroker}
use algo_trader.Approvals
use algo_trader.Approvals.{ProposalError, get_proposal}
use algo_trader.Approvals.Store.{get}
use algo_trader.Execution.{
  QueueRecord, ExecutionRecord, World, Quote, Coordinator, Outside, is_failed_attempt,
}
use algo_trader.Execution.Queue
use algo_trader.Execution.Queue.{is_claimable}
use algo_trader.Execution.Queue.Claims
use algo_trader.Execution.Attempts
use algo_trader.Execution.Checks.{stale_before, automation_blockers, select_broker, quote_price}
use algo_trader.Execution.Records.{is_approved}
use algo_trader.Execution.Items.{is_final, saved, is_recorded}
use algo_trader.Execution.Process.{
  routed, with_proposal, claimed_item, after_claim, try_claim, with_latest, consider,
}
use algo_trader.Execution.Guarded.Account.{account-result}
use algo_trader.Execution.Guarded.Stages.{
  approved_of, get_proposal-approved, Judged, quoted-sent, count_and_drift-executions,
}

module _ {F : Type 0} where
  -- The proposal has no execution, or its latest one has failed.
  abbrev pub IsRetriable : Option (ExecutionRecord F) → Type 0
  IsRetriable none = Unit
  IsRetriable (some x) = is_failed_attempt x.status ≡ true

module _ {F : Type 0} ⦃n : Float F⦄ (c : Coordinator F) (o : Outside F) where
  -- What a pass found from the choice of the broker on.
  abbrev pub Routed : TradeProposal F → Result NoBroker (ℕ × Choice) → World F → Type 0
  Routed p m w =
      (client : ℕ) × (name : Choice) × (m ≡ ok (client, name)) × Judged c o p name o.quote w

  -- The checks read the flags and the executions alone.
  elsewhere :
      (p : TradeProposal F) (name : Choice) (m : Result String (Quote F)) (v w : World F)
      → v.automation ≡ w.automation
      → v.executions ≡ w.executions
      → Judged c o p name m v
      → Judged c o p name m w
  elsewhere p name m v w flags runs
        (q, priced, blockers, accepted, sound, directed, free, within, gate) =
      (
        q,
        priced,
        ap (automation_blockers c) (sym flags) ∙ blockers,
        account-result c o name w v ∙ accepted,
        sound,
        directed,
        free,
        count_and_drift-executions c o p (quote_price q p) w v (sym runs) ∙ within,
        gate,
      )

  routed-sent :
      (r : QueueRecord F) (p : TradeProposal F) (m : Result NoBroker (ℕ × Choice)) (w : World F)
      → (routed c o r p m w).1.calls ≢ w.calls
      → Routed p m w
  unfolding routed saved
  routed-sent r p (err e) w sent = absurd (sent refl)
  routed-sent r p (ok (client, name)) w sent =
      (client, name, refl, quoted-sent c o r p client name o.quote w sent)

  with_proposal-sent :
      (r : QueueRecord F) (w : World F)
      (m : Result (ProposalError F) (TradeProposal F) × Approvals.World F)
      → (with_proposal c o r w m).1.calls ≢ w.calls
      → (p : TradeProposal F) × (m.0 ≡ ok p)
        × (p.status ≡ ApprovalStatus.approved)
        × Routed p (select_broker c p) (record w { approvals = m.1 })
  unfolding saved
  with_proposal-sent r w (err e, a) sent = absurd (sent refl)
  with_proposal-sent r w (ok p, a) sent = elim (Bool-cases (is_approved p.status)) [
    | inl approved ↦ (
      p,
      refl,
      approved_of p.status approved,
      routed-sent r p (select_broker c p) (record w { approvals = a }) (rw approved at sent),
    )
    | inr other ↦ absurd ((rw other at sent) refl)
  ]

  -- What a pass found of the proposal and of the order, in the state w before it.
  abbrev pub Cleared : ℕ → World F → Type 0
  Cleared k w =
      (p : TradeProposal F) × (get k w.approvals.proposals ≡ some p)
      × (p.status ≡ ApprovalStatus.approved)
      × (o.proposal_clock.checked < p.expires_at)
      × Routed p (select_broker c p) w

  claimed_item-sent :
      (r : QueueRecord F) (w : World F)
      → (claimed_item c o r w).1.calls ≢ w.calls
      → Cleared r.proposal_id w
  unfolding claimed_item
  claimed_item-sent r w sent =
      let m = get_proposal o.proposal_clock r.proposal_id w.approvals in
      let (p, read, approved, (client, name, brokered, rest)) = with_proposal-sent r w m sent in
      let (stored, unexpired) =
        get_proposal-approved o.proposal_clock r.proposal_id w.approvals p read approved in
      (
        p,
        stored,
        approved,
        unexpired,
        (
          client,
          name,
          brokered,
          elsewhere p name o.quote (record w { approvals = m.1 }) w refl refl rest,
        ),
      )

  after_claim-sent :
      (r : QueueRecord F) (w : World F) (m : Result String (Bool × List (QueueRecord F)))
      → (after_claim c o r w m).1.calls ≢ w.calls
      → (rows : List (QueueRecord F)) × (m ≡ ok (true, rows))
        × Cleared (or_else (Queue.get r.id rows) r).proposal_id (record w { queue = rows })
  after_claim-sent r w (err symbol) sent = absurd (sent refl)
  after_claim-sent r w (ok (false, rows)) sent = absurd (sent refl)
  after_claim-sent r w (ok (true, rows)) sent = (
    rows,
    refl,
    claimed_item-sent (or_else (Queue.get r.id rows) r) (record w { queue = rows }) sent,
  )

  module _ (r : QueueRecord F) (w : World F) (found : Queue.get r.id w.queue ≡ some r) where
    abbrev pub stale : ℕ
    stale = stale_before c.settings.workflow_lock_timeout_minutes o.stale_checked

    -- The item could be claimed, and its proposal was cleared.
    abbrev pub Claimed : Type 0
    Claimed = (is_claimable stale r.status r.updated_at ≡ true) × Cleared r.proposal_id w

    try_claim-sent : (try_claim c o r w).1.calls ≢ w.calls → Claimed
    unfolding try_claim
    try_claim-sent sent = elim (Bool-cases (is_final r.status)) [
      | inl settled ↦ absurd ((rw settled at sent) refl)
      | inr pending ↦
          let (rows, taken, (p, stored, approved, unexpired, (client, name, brokered, rest))) =
            after_claim-sent r w (Queue.claim_for_processing stale o.claimed r.id w.queue)
              (rw pending at sent) in
          let (claimable, unique, same) =
            Claims.claimed_row stale o.claimed r.id r w.queue found rows taken in
          (
            claimable,
            (
              p,
              ap (λ k. get k w.approvals.proposals)
                    (sym (Claims.claim-proposal_id stale o.claimed r w.queue found rows taken))
                  ∙ stored,
              approved,
              unexpired,
              (
                client,
                name,
                brokered,
                elsewhere p name o.quote (record w { queue = rows }) w refl refl rest,
              ),
            ),
          )
    ]

    with_latest-sent :
        (x : Option (ExecutionRecord F))
        → (with_latest c o r w x).1.calls ≢ w.calls
        → IsRetriable x × Claimed
    unfolding saved
    with_latest-sent none sent = (tt, try_claim-sent sent)
    with_latest-sent (some x) sent = elim (Bool-cases (is_failed_attempt x.status)) [
      | inl failed ↦ (failed, try_claim-sent (rw failed at sent))
      | inr alive ↦ absurd ((rw alive at sent) refl)
    ]

    pub consider-sent :
        (consider c o r w).1.calls ≢ w.calls
        → (is_recorded r w ≡ false)
          × IsRetriable (Attempts.get_latest_by_proposal_id r.proposal_id w.executions)
          × Claimed
    unfolding consider
    consider-sent sent = elim (Bool-cases (is_recorded r w)) [
      | inl recorded ↦ absurd ((rw recorded at sent) refl)
      | inr fresh ↦
          let (retriable, claimed) = with_latest-sent _ (rw fresh at sent) in
          (fresh, retriable, claimed)
    ]
