-- ===== src/Execution/Invariants.antt =====
-- app/execution/coordinator.py: the rule for invariants, for the whole of `process_queue_item`, one
-- stage after the other, and for `enqueue_approved_proposal` and `process_ready_queue`.
use algo_trader.Prelude.{
  ℕ, String, ◌≡◌, refl, inl, inr, Bool, true, false, not, ◌&&◌, Option, none, some, List, [], ◌∷◌,
  str_eq, Bool-cases, Option-cases, or_else, is_empty,
}
use algo_trader.Result.{Result, ok, err}
use algo_trader.Float.{Float}
use algo_trader.Models.{TradeProposal}
use algo_trader.Broker.Router.{Choice, NoBroker}
use algo_trader.Risk.Settings.{is_live}
use algo_trader.Risk.Context.{RiskContext, RoomAuthority}
use algo_trader.Risk.Guardrails.{validate_order}
use algo_trader.Automation.Blocked.{Blocker}
use algo_trader.Text.{strip, is_nonempty}
use algo_trader.Approvals
use algo_trader.Approvals.{ProposalError, get_proposal}
use algo_trader.Execution.{
  QueueStatus, QueueRecord, ExecutionRecord, PaperPosition, Failure, Response, self_simulated,
  self_simulated_fallback, open_paper_position, broker_submission_failed, bracket_failed,
  risk_failed, no_broker, proposal_status, World, Quote, Identity, Coordinator, Outside, Objection,
  AccountReason, is_failed_attempt, item_not_found,
}
use algo_trader.Execution.Queue
use algo_trader.Execution.Checks.{
  stale_before, automation_blockers, select_broker, identity_check, with_support,
  account_validation_reasons, quote_price, objections, governed,
}
use algo_trader.Execution.Records.{is_approved}
use algo_trader.Execution.Items.{
  is_paper_authority, is_final, saved, unapproved, blocked_item, executed_item, validated_item,
  is_recorded,
}
use algo_trader.Execution.Placement.{
  finish, finish_marked, paper_opened, open_paper, submission_failed, after_broker, place,
  bracket_reasons, bracketed,
}
use algo_trader.Execution.Process.{
  gated, judged, with_account, quoted, routed, with_proposal, claimed_item, after_claim, try_claim,
  with_latest, consider, process_queue_item,
}
use algo_trader.Execution.Keeps.{Keeps, is_outcome, mark_kept, execute_with_broker_kept}

module _ {F : Type 0} ⦃n : Float F⦄ (c : Coordinator F) (o : Outside F) (k : ℕ) (w : World F) where
  pub process_queue_item-none :
      Queue.get k w.queue ≡ none → process_queue_item c o k w ≡ (err (item_not_found k), w)
  unfolding process_queue_item
  process_queue_item-none e = rw (e, process_queue_item)

  pub process_queue_item-some :
      (r : QueueRecord F)
      → Queue.get k w.queue ≡ some r
      → process_queue_item c o k w ≡ consider c o r w
  unfolding process_queue_item
  process_queue_item-some r e = rw (e, process_queue_item)

module _ {F : Type 0} ⦃n : Float F⦄ (c : Coordinator F) (o : Outside F) (Q : World F → Type 0)
    (keeps : Keeps Q) where
  saved_kept :
      (r : QueueRecord F) (w : World F) → is_outcome r.status ≡ true → Q w → Q (saved r w).1
  unfolding saved
  saved_kept r w closed h = keeps.settling r w closed h

  finish_kept : (r : QueueRecord F) (k : ℕ) (w : World F) → Q w → Q (finish c o r k w).1
  unfolding finish
  finish_kept r k w h = saved_kept (executed_item o.settled o.settled k r) w refl h

  finish_marked_kept :
      (r : QueueRecord F) (m : Result (Failure F) ℕ × World F) → Q m.1 → Q (finish_marked c o r m).1
  finish_marked_kept r (ok k, w) h = finish_kept r k w h
  finish_marked_kept r (err e, w) h = h

  paper_opened_kept :
      (r : QueueRecord F) (p : TradeProposal F) (now k : ℕ)
      (response : PaperPosition F → Response F) (a : Result String (PaperPosition F)) (w : World F)
      → Q w
      → Q (paper_opened c o r p now k response a w).1
  unfolding paper_opened
  paper_opened_kept r p now k response (err e) w h = h
  paper_opened_kept r p now k response (ok x) w h =
      finish_marked_kept r _ (mark_kept Q keeps o.marked p.id k k _ (keeps.executions _ w h))

  open_paper_kept :
      (r : QueueRecord F) (p : TradeProposal F) (now k : ℕ)
      (response : PaperPosition F → Response F) (w : World F)
      → Q w
      → Q (open_paper c o r p now k response w).1
  unfolding open_paper
  open_paper_kept r p now k response w h =
      paper_opened_kept r p now k response o.paper _
        (keeps.call (open_paper_position p.id p.order) w h)

  submission_failed_kept :
      (r : QueueRecord F) (p : TradeProposal F) (name : Choice) (e : Failure F) (w : World F)
      → Q w
      → Q (submission_failed c o r p name e w).1
  unfolding submission_failed
  submission_failed_kept r p name e w h =
      saved_kept
        (record (blocked_item o.settled broker_submission_failed r) {
          execution_id = some o.second_execution_id;
        })
        _ refl (keeps.executions _ w h)

  after_broker_kept :
      (r : QueueRecord F) (p : TradeProposal F) (name : Choice) (room : RoomAuthority)
      (m : Result (Failure F) (ExecutionRecord F) × World F)
      → Q m.1
      → Q (after_broker c o r p name room m).1
  after_broker_kept r p name room (ok x, w) h = finish_kept r x.id w h
  after_broker_kept r p name room (err e, w) h =
      elim (Bool-cases (
        not (is_live c.settings.risk.execution_mode)
        && (c.settings.paper_simulated_fallback_enabled && is_paper_authority room))) [
          | inl fallback ↦ rw fallback (
              open_paper_kept r p o.second_attempted o.second_execution_id
                (λ x. self_simulated_fallback x e) w h)
          | inr failed ↦ rw failed (submission_failed_kept r p name e w h)
        ]

  place_kept :
      (r : QueueRecord F) (p : TradeProposal F) (client : ℕ) (name : Choice) (price : F)
      (room : RoomAuthority) (w : World F)
      → Q w
      → Q (place c o r p client name price room w).1
  unfolding place
  place_kept r p client name price room w h =
      elim (Bool-cases
        (not (is_live c.settings.risk.execution_mode) && c.settings.paper_self_simulated)) [
          | inl simulated ↦
              rw simulated (open_paper_kept r p o.attempted o.execution_id self_simulated w h)
          | inr routed ↦ elim (Bool-cases (is_recorded r w)) [
            | inl recorded ↦ rw (routed, recorded) h
            | inr fresh ↦
                rw (routed, fresh)
                  (after_broker_kept r p name room _ (
                    execute_with_broker_kept Q keeps c o p client name price r.client_order_id w h))
          ]
        ]

  bracketed_kept :
      (r : QueueRecord F) (p : TradeProposal F) (client : ℕ) (name : Choice) (price : F)
      (room : RoomAuthority) (w : World F)
      → Q w
      → Q (bracketed c o r p client name price room w).1
  unfolding bracketed
  bracketed_kept r p client name price room w h =
      elim (Bool-cases (is_empty (bracket_reasons c o p name price))) [
        | inl sound ↦ rw sound (place_kept r p client name price room w h)
        | inr poor ↦ rw poor (
            saved_kept
              (blocked_item o.settled (bracket_failed (bracket_reasons c o p name price)) r) w refl
              h)
      ]

  gated_kept :
      (r : QueueRecord F) (p : TradeProposal F) (client : ℕ) (name : Choice) (price : F)
      (x : Result String (RiskContext F)) (w : World F)
      → Q w
      → Q (gated c o r p client name price x w).1
  unfolding gated
  gated_kept r p client name price (err e) w h = h
  gated_kept r p client name price (ok x) w h =
      let risk = validate_order c.settings.risk p.order x o.room in
      elim (Bool-cases risk.passed) [
        | inl passed ↦ rw passed (
            bracketed_kept r (record p { order = governed c.settings x p.order }) client name price
              risk.room_authority w h)
        | inr refused ↦
            rw refused (saved_kept (blocked_item o.settled (risk_failed risk.reasons) r) w refl h)
      ]

  judged_kept :
      (r : QueueRecord F) (p : TradeProposal F) (client : ℕ) (name : Choice) (q : Quote F)
      (found : List Objection) (w : World F)
      → Q w
      → Q (judged c o r p client name q found w).1
  unfolding judged
  judged_kept r p client name q [] w h = gated_kept _ p client name (quote_price q p) o.context w h
  judged_kept r p client name q (x ∷ xs) w h =
      saved_kept
        (record (validated_item (some (quote_price q p)) q.timestamp (x ∷ xs) r) {
          status = QueueStatus.blocked;
          updated_at = o.settled;
        })
        w refl h

  identity_check_kept :
      (now : ℕ) (expected : String) (i : Option (Result String Identity)) (w : World F)
      → Q w
      → Q (identity_check c now expected i w).1
  unfolding identity_check
  identity_check_kept now expected none w h = h
  identity_check_kept now expected (some (err e)) w h = elim (Bool-cases (is_nonempty expected)) [
    | inl asked ↦ rw asked h
    | inr free ↦ rw free h
  ]
  identity_check_kept now expected (some (ok i)) w h = elim (Bool-cases (is_nonempty expected)) [
    | inr free ↦ rw free h
    | inl asked ↦ elim (Bool-cases (str_eq i.account_number expected)) [
      | inl same ↦ rw (asked, same) h
      | inr other ↦ rw (asked, other) (keeps.automation _ w h)
    ]
  ]

  with_support_kept :
      (supported : Option (Result String Bool))
      (m : Result (Failure F) (List AccountReason) × World F)
      → Q m.1
      → Q (with_support supported m).1
  with_support_kept supported (ok x, w) h = h
  with_support_kept supported (err e, w) h = h

  account_kept : (name : Choice) (w : World F) → Q w → Q (account_validation_reasons c o name w).1
  unfolding account_validation_reasons
  account_kept Choice.alpaca w h = with_support_kept o.broker.is_supported_equity _ (
      identity_check_kept o.tripped (strip c.settings.automation.expected_account_number)
        o.broker.get_account_identity w h)
  account_kept Choice.etoro w h = h
  account_kept Choice.nobody w h = h

  with_account_kept :
      (r : QueueRecord F) (p : TradeProposal F) (client : ℕ) (name : Choice) (q : Quote F)
      (blockers : List Blocker) (m : Result (Failure F) (List AccountReason) × World F)
      → Q m.1
      → Q (with_account c o r p client name q blockers m).1
  with_account_kept r p client name q blockers (err e, w) h = h
  with_account_kept r p client name q blockers (ok account, w) h =
      judged_kept r p client name q (objections c o p name q blockers account w) w h

  quoted_kept :
      (r : QueueRecord F) (p : TradeProposal F) (client : ℕ) (name : Choice)
      (q : Result String (Quote F)) (w : World F)
      → Q w
      → Q (quoted c o r p client name q w).1
  unfolding quoted
  quoted_kept r p client name (err e) w h = h
  quoted_kept r p client name (ok q) w h =
      with_account_kept r p client name q (automation_blockers c w.automation)
        (account_validation_reasons c o name w) (account_kept name w h)

  routed_kept :
      (r : QueueRecord F) (p : TradeProposal F) (x : Result NoBroker (ℕ × Choice)) (w : World F)
      → Q w
      → Q (routed c o r p x w).1
  unfolding routed
  routed_kept r p (err e) w h = saved_kept (blocked_item o.settled (no_broker e) r) w refl h
  routed_kept r p (ok (client, name)) w h = quoted_kept r p client name o.quote w h

  with_proposal_kept :
      (r : QueueRecord F) (w : World F)
      (m : Result (ProposalError F) (TradeProposal F) × Approvals.World F)
      → Q (record w { approvals = m.1 })
      → Q (with_proposal c o r w m).1
  with_proposal_kept r w (err e, a) h = h
  with_proposal_kept r w (ok p, a) h = elim (Bool-cases (is_approved p.status)) [
    | inl approved ↦ rw approved (routed_kept r p (select_broker c p) _ h)
    | inr other ↦ rw other (
        saved_kept (unapproved o.settled (proposal_status p.status) r) (record w { approvals = a })
          refl h)
  ]

  pub claimed_item_kept : (r : QueueRecord F) (w : World F) → Q w → Q (claimed_item c o r w).1
  unfolding claimed_item
  claimed_item_kept r w h =
      with_proposal_kept r w (get_proposal o.proposal_clock r.proposal_id w.approvals)
        (keeps.reading o.proposal_clock r.proposal_id w h)

  after_claim_kept :
      (r : QueueRecord F) (w : World F) (m : Result String (Bool × List (QueueRecord F)))
      → ((b : Bool) (rows : List (QueueRecord F))
          → m ≡ ok (b, rows)
          → Q (record w { queue = rows }))
      → Q w
      → Q (after_claim c o r w m).1
  after_claim_kept r w (err symbol) go h = h
  after_claim_kept r w (ok (false, rows)) go h = go false rows refl
  after_claim_kept r w (ok (true, rows)) go h =
      claimed_item_kept (or_else (Queue.get r.id rows) r) (record w { queue = rows })
        (go true rows refl)

  try_claim_kept : (r : QueueRecord F) (w : World F) → Q w → Q (try_claim c o r w).1
  unfolding try_claim
  try_claim_kept r w h = elim (Bool-cases (is_final r.status)) [
    | inl settled ↦ rw settled h
    | inr pending ↦ rw pending (
        after_claim_kept r w
          (Queue.claim_for_processing
            (stale_before c.settings.workflow_lock_timeout_minutes o.stale_checked) o.claimed r.id
            w.queue)
          (λ b rows e. keeps.claiming _ _ _ b rows w e h) h)
  ]

  with_latest_kept :
      (r : QueueRecord F) (w : World F) (x : Option (ExecutionRecord F))
      → Q w
      → Q (with_latest c o r w x).1
  with_latest_kept r w none h = try_claim_kept r w h
  with_latest_kept r w (some x) h = elim (Bool-cases (is_failed_attempt x.status)) [
    | inl failed ↦ rw failed (try_claim_kept r w h)
    | inr alive ↦
        rw alive (
          saved_kept (executed_item o.settled (or_else r.executed_at x.updated_at) x.id r) w refl h)
  ]

  consider_kept : (r : QueueRecord F) (w : World F) → Q w → Q (consider c o r w).1
  unfolding consider
  consider_kept r w h = elim (Bool-cases (is_recorded r w)) [
    | inl recorded ↦ rw recorded h
    | inr fresh ↦ rw fresh (with_latest_kept r w _ h)
  ]

  pub process_queue_item_kept : (k : ℕ) (w : World F) → Q w → Q (process_queue_item c o k w).1
  process_queue_item_kept k w h = elim (Option-cases (Queue.get k w.queue)) [
    | inl missing ↦ rw (process_queue_item-none c o k w missing) h
    | inr (r, found) ↦ rw (process_queue_item-some c o k w r found) (consider_kept r w h)
  ]
