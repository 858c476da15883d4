-- ===== src/Execution/Exposure.antt =====
-- app/execution/coordinator.py: when a pass sent something and ends with an executed item, the proposal
-- is executed, one stage after the other; and the coordinator sends nothing for an executed proposal.
use algo_trader.Prelude.{
  ℕ, String, ◌≡◌, refl, ◌∙◌, ◌≢◌, inl, inr, Bool, true, false, not, ◌&&◌, Option, none, some, List,
  [], ◌∷◌, arith, Bool-cases, or_else, is_empty,
}
use mathlib.Core.Path.{subst}
use algo_trader.Result.{Result, ok, err}
use algo_trader.Text.{strip}
use algo_trader.Float.{Float}
use algo_trader.Models.{TradeProposal}
use algo_trader.Broker.Router.{Choice, NoBroker}
use algo_trader.Automation.Blocked.{Blocker}
use algo_trader.Risk.Settings.{is_live}
use algo_trader.Risk.Context.{RiskContext, RoomAuthority}
use algo_trader.Risk.Guardrails.{validate_order}
use algo_trader.Approvals
use algo_trader.Approvals.{ProposalError, get_proposal}
use algo_trader.Execution.{
  QueueStatus, QueueRecord, ExecutionRecord, PaperPosition, Failure, Response, self_simulated,
  self_simulated_fallback, open_paper_position, World, Quote, Identity, Coordinator, Outside,
  Objection, AccountReason, Call, is_failed_attempt,
}
use algo_trader.Execution.Queue
use algo_trader.Execution.Queue.Claims.{claim-proposal_id}
use algo_trader.Execution.Checks.{
  stale_before, automation_blockers, select_broker, identity_check, with_support,
  account_validation_reasons, quote_price, objections, governed,
}
use algo_trader.Execution.Records.{is_approved, called, create_execution, blank}
use algo_trader.Execution.Submission.{execute_with_broker}
use algo_trader.Execution.Items.{is_paper_authority, is_final, saved, is_recorded}
use algo_trader.Execution.Placement.{
  finish, finish_marked, paper_opened, open_paper, submission_failed, after_broker, place,
  bracket_reasons, bracketed,
}
use algo_trader.Execution.Process.{
  gated, judged, with_account, quoted, routed, with_proposal, claimed_item, after_claim, try_claim,
  with_latest, consider,
}
use algo_trader.Execution.Once.{Done, OkDone, mark-Done}
use algo_trader.Execution.Submitted.{get_proposal-id, execute_with_broker-Done}

module _ {F : Type 0} ⦃n : Float F⦄ (c : Coordinator F) (o : Outside F) where
  module _ (k : ℕ) (calls : List (Call F)) where
    -- If more was sent and the item ends executed, then the proposal k is executed.
    abbrev pub Exposed : Result (Failure F) (QueueRecord F) × World F → Type 0
    Exposed (ok r, w) = r.status ≡ QueueStatus.executed → w.calls ≢ calls → Done k w
    Exposed (err e, w) = Unit

    finish-Exposed :
        (r : QueueRecord F) (x : ℕ) (w : World F) → Done k w → Exposed (finish c o r x w)
    unfolding finish
    finish-Exposed r x w h executed sent = h

    finish_marked-Exposed :
        (r : QueueRecord F) (m : Result (Failure F) ℕ × World F)
        → OkDone k m
        → Exposed (finish_marked c o r m)
    finish_marked-Exposed r (ok x, w) h = finish-Exposed r x w h
    finish_marked-Exposed r (err e, w) h = tt

    submission_failed-Exposed :
        (r : QueueRecord F) (p : TradeProposal F) (name : Choice) (e : Failure F) (w : World F)
        → Exposed (submission_failed c o r p name e w)
    unfolding submission_failed
    submission_failed-Exposed r p name e w executed sent = cc

  paper_opened-Exposed :
      (calls : List (Call F)) (r : QueueRecord F) (p : TradeProposal F) (now x : ℕ)
      (response : PaperPosition F → Response F) (a : Result String (PaperPosition F)) (w : World F)
      → Exposed p.id calls (paper_opened c o r p now x response a w)
  unfolding paper_opened
  paper_opened-Exposed calls r p now x response (err e) w = tt
  paper_opened-Exposed calls r p now x response (ok a) w = finish_marked-Exposed p.id calls r _ (
      mark-Done o.marked p.id x x (
        create_execution
          (record (blank now x p r.client_order_id "paper") { response = response a }) w))

  after_broker-Exposed :
      (calls : List (Call F)) (r : QueueRecord F) (p : TradeProposal F) (name : Choice)
      (room : RoomAuthority) (m : Result (Failure F) (ExecutionRecord F) × World F)
      → OkDone p.id m
      → Exposed p.id calls (after_broker c o r p name room m)
  unfolding open_paper
  after_broker-Exposed calls r p name room (ok x, w) h = finish-Exposed p.id calls r x.id w h
  after_broker-Exposed calls r p name room (err e, w) h =
      elim (Bool-cases (
        not (is_live c.settings.risk.execution_mode)
        && (c.settings.paper_simulated_fallback_enabled && is_paper_authority room))) [
          | inl fallback ↦ rw fallback (
              paper_opened-Exposed calls r p o.second_attempted o.second_execution_id
                (λ x. self_simulated_fallback x e) o.paper
                (called (open_paper_position p.id p.order) w))
          | inr failed ↦ rw failed (submission_failed-Exposed p.id calls r p name e w)
        ]

  -- A pass that sends nothing is of no concern.
  quiet-Exposed :
      (k : ℕ) (r : QueueRecord F) (w v : World F) → v.calls ≡ w.calls → Exposed k w.calls (ok r, v)
  quiet-Exposed k r w v same executed sent = absurd (sent same)

  place-Exposed :
      (r : QueueRecord F) (p : TradeProposal F) (client : ℕ) (name : Choice) (price : F)
      (room : RoomAuthority) (w : World F)
      → Exposed p.id w.calls (place c o r p client name price room w)
  unfolding place open_paper
  place-Exposed r p client name price room w =
      elim (Bool-cases
        (not (is_live c.settings.risk.execution_mode) && c.settings.paper_self_simulated)) [
          | inl simulated ↦ rw simulated (
              paper_opened-Exposed w.calls r p o.attempted o.execution_id self_simulated o.paper
                (called (open_paper_position p.id p.order) w))
          | inr routed ↦ elim (Bool-cases (is_recorded r w)) [
            | inl recorded ↦ rw (routed, recorded) (quiet-Exposed p.id r w w refl)
            | inr fresh ↦
                rw (routed, fresh)
                  (after_broker-Exposed w.calls r p name room
                    (execute_with_broker c o p client name price r.client_order_id w)
                    (execute_with_broker-Done c o p client name price r.client_order_id w))
          ]
        ]

  bracketed-Exposed :
      (r : QueueRecord F) (p : TradeProposal F) (client : ℕ) (name : Choice) (price : F)
      (room : RoomAuthority) (w : World F)
      → Exposed p.id w.calls (bracketed c o r p client name price room w)
  unfolding bracketed
  bracketed-Exposed r p client name price room w =
      elim (Bool-cases (is_empty (bracket_reasons c o p name price))) [
        | inl sound ↦ rw sound (place-Exposed r p client name price room w)
        | inr poor ↦ rw poor (λ executed sent. absurd (sent refl))
      ]

  gated-Exposed :
      (r : QueueRecord F) (p : TradeProposal F) (client : ℕ) (name : Choice) (price : F)
      (x : Result String (RiskContext F)) (w : World F)
      → Exposed p.id w.calls (gated c o r p client name price x w)
  unfolding gated
  gated-Exposed r p client name price (err e) w = tt
  gated-Exposed r p client name price (ok x) w =
      let risk = validate_order c.settings.risk p.order x o.room in
      elim (Bool-cases risk.passed) [
        | inl passed ↦ rw passed (
            bracketed-Exposed r (record p { order = governed c.settings x p.order }) client name
              price risk.room_authority w)
        | inr refused ↦ rw refused (λ executed sent. absurd (sent refl))
      ]

  judged-Exposed :
      (r : QueueRecord F) (p : TradeProposal F) (client : ℕ) (name : Choice) (q : Quote F)
      (found : List Objection) (w : World F)
      → Exposed p.id w.calls (judged c o r p client name q found w)
  unfolding judged
  judged-Exposed r p client name q [] w =
      gated-Exposed _ p client name (quote_price q p) o.context w
  judged-Exposed r p client name q (x ∷ xs) w = λ executed sent. absurd (sent refl)

  with_account-Exposed :
      (calls : List (Call F)) (r : QueueRecord F) (p : TradeProposal F) (client : ℕ) (name : Choice)
      (q : Quote F) (blockers : List Blocker)
      (m : Result (Failure F) (List AccountReason) × World F)
      → m.1.calls ≡ calls
      → Exposed p.id calls (with_account c o r p client name q blockers m)
  with_account-Exposed calls r p client name q blockers (err e, w) same = tt
  with_account-Exposed calls r p client name q blockers (ok account, w) same =
      subst (λ s. Exposed p.id s (with_account c o r p client name q blockers (ok account, w))) same
        (judged-Exposed r p client name q (objections c o p name q blockers account w) w)

  identity_check-calls :
      (now : ℕ) (expected : String) (i : Option (Result String Identity)) (w : World F)
      → (identity_check c now expected i w).1.calls ≡ w.calls
  unfolding identity_check
  identity_check-calls now expected none w = refl
  identity_check-calls now expected (some (err e)) w = ground arith
  identity_check-calls now expected (some (ok i)) w = ground arith

  with_support-calls :
      (supported : Option (Result String Bool))
      (m : Result (Failure F) (List AccountReason) × World F)
      → (with_support supported m).1.calls ≡ m.1.calls
  with_support-calls supported (ok x, w) = refl
  with_support-calls supported (err e, w) = refl

  pub account-calls :
      (name : Choice) (w : World F) → (account_validation_reasons c o name w).1.calls ≡ w.calls
  unfolding account_validation_reasons
  account-calls Choice.alpaca w =
      with_support-calls o.broker.is_supported_equity _
      ∙ identity_check-calls o.tripped (strip c.settings.automation.expected_account_number)
          o.broker.get_account_identity w
  account-calls Choice.etoro w = refl
  account-calls Choice.nobody w = refl

  quoted-Exposed :
      (r : QueueRecord F) (p : TradeProposal F) (client : ℕ) (name : Choice)
      (q : Result String (Quote F)) (w : World F)
      → Exposed p.id w.calls (quoted c o r p client name q w)
  unfolding quoted
  quoted-Exposed r p client name (err e) w = tt
  quoted-Exposed r p client name (ok q) w =
      with_account-Exposed w.calls r p client name q (automation_blockers c w.automation)
        (account_validation_reasons c o name w) (account-calls name w)

  routed-Exposed :
      (r : QueueRecord F) (p : TradeProposal F) (x : Result NoBroker (ℕ × Choice)) (w : World F)
      → Exposed p.id w.calls (routed c o r p x w)
  unfolding routed
  routed-Exposed r p (err e) w = λ executed sent. absurd (sent refl)
  routed-Exposed r p (ok (client, name)) w = quoted-Exposed r p client name o.quote w

  with_proposal-Exposed :
      (k : ℕ) (r : QueueRecord F) (w : World F)
      (m : Result (ProposalError F) (TradeProposal F) × Approvals.World F)
      → ((p : TradeProposal F) → m.0 ≡ ok p → p.id ≡ k)
      → Exposed k w.calls (with_proposal c o r w m)
  unfolding saved
  with_proposal-Exposed k r w (err e, a) named = tt
  with_proposal-Exposed k r w (ok p, a) named = elim (Bool-cases (is_approved p.status)) [
    | inl approved ↦ rw approved (
        subst
          (λ j. Exposed j w.calls (routed c o r p (select_broker c p) (record w { approvals = a })))
          (named p refl) (routed-Exposed r p (select_broker c p) (record w { approvals = a })))
    | inr other ↦ rw other (λ executed sent. absurd (sent refl))
  ]

  claimed_item-Exposed :
      (r : QueueRecord F) (w : World F) → Exposed r.proposal_id w.calls (claimed_item c o r w)
  unfolding claimed_item
  claimed_item-Exposed r w =
      with_proposal-Exposed r.proposal_id r w
        (get_proposal o.proposal_clock r.proposal_id w.approvals)
        (get_proposal-id o.proposal_clock r.proposal_id w.approvals)

  after_claim-Exposed :
      (r : QueueRecord F) (w : World F) (m : Result String (Bool × List (QueueRecord F)))
      → ((rows : List (QueueRecord F))
          → m ≡ ok (true, rows)
          → (or_else (Queue.get r.id rows) r).proposal_id ≡ r.proposal_id)
      → Exposed r.proposal_id w.calls (after_claim c o r w m)
  after_claim-Exposed r w (err symbol) named = tt
  after_claim-Exposed r w (ok (false, rows)) named = λ executed sent. absurd (sent refl)
  after_claim-Exposed r w (ok (true, rows)) named =
      let r' = or_else (Queue.get r.id rows) r in
      subst (λ j. Exposed j w.calls (claimed_item c o r' (record w { queue = rows })))
        (named rows refl) (claimed_item-Exposed r' (record w { queue = rows }))

  try_claim-Exposed :
      (r : QueueRecord F) (w : World F)
      → Queue.get r.id w.queue ≡ some r
      → Exposed r.proposal_id w.calls (try_claim c o r w)
  unfolding try_claim
  try_claim-Exposed r w found = elim (Bool-cases (is_final r.status)) [
    | inl settled ↦ rw settled (λ executed sent. absurd (sent refl))
    | inr pending ↦ rw pending (
        after_claim-Exposed r w
          (Queue.claim_for_processing
            (stale_before c.settings.workflow_lock_timeout_minutes o.stale_checked) o.claimed r.id
            w.queue)
          (claim-proposal_id (stale_before c.settings.workflow_lock_timeout_minutes o.stale_checked)
            o.claimed r w.queue found))
  ]

  with_latest-Exposed :
      (r : QueueRecord F) (w : World F) (x : Option (ExecutionRecord F))
      → Queue.get r.id w.queue ≡ some r
      → Exposed r.proposal_id w.calls (with_latest c o r w x)
  unfolding saved
  with_latest-Exposed r w none found = try_claim-Exposed r w found
  with_latest-Exposed r w (some x) found = elim (Bool-cases (is_failed_attempt x.status)) [
    | inl failed ↦ rw failed (try_claim-Exposed r w found)
    | inr alive ↦ rw alive (λ executed sent. absurd (sent refl))
  ]

  pub consider-Exposed :
      (r : QueueRecord F) (w : World F)
      → Queue.get r.id w.queue ≡ some r
      → Exposed r.proposal_id w.calls (consider c o r w)
  unfolding consider
  consider-Exposed r w found = elim (Bool-cases (is_recorded r w)) [
    | inl recorded ↦ rw recorded (λ executed sent. absurd (sent refl))
    | inr fresh ↦ rw fresh (with_latest-Exposed r w _ found)
  ]
