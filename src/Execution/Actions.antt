-- ===== src/Execution/Actions.antt =====
-- app/approvals/service.py and app/execution/coordinator.py over one store: sequences of calls of both,
-- and the rule for what every such sequence keeps.
use algo_trader.Prelude.{ℕ, String, ◌≡◌, refl, inl, inr, List, [], ◌∷◌, Bool-cases, All}
use algo_trader.Result.{Result, ok, err}
use algo_trader.Float.{Float}
use algo_trader.Models.{TradeProposal}
use algo_trader.Approvals
use algo_trader.Approvals.{Clock, ProposalError, get_proposal}
use algo_trader.Approvals.Requests.{Request, step}
use algo_trader.Execution.{QueueRecord, World, Failure, Coordinator, Outside}
use algo_trader.Execution.Queue
use algo_trader.Execution.Records.{is_approved}
use algo_trader.Execution.Enqueue.{
  new_item, queue_created, enqueue, enqueue_found, enqueue_approved_proposal,
}
use algo_trader.Execution.Process.{
  process_queue_item, process_each, process_ready_queue, process_next,
}
use algo_trader.Execution.Keeps.{Keeps}
use algo_trader.Execution.Invariants.{process_queue_item_kept}

-- A call of the approval service, of `enqueue_approved_proposal` with its clock, the time, the new id
-- and the digest, of `process_queue_item`, or of `process_ready_queue` with its limit.
pub data Action (F : Type 0) : Type 0 where
  service : Request F → Action F
  enqueueing : Clock → ℕ → ℕ → String → ℕ → Action F
  processing : Outside F → ℕ → Action F
  draining : (ℕ → Outside F) → ℕ → Action F

-- The calls of the approval service among the actions are of a kind.
abbrev pub Serves : {F : Type 0} → (Request F → Type 0) → Action F → Type 0
Serves Fits (service r) = Fits r
Serves Fits _ = Unit

module _ {F : Type 0} ⦃n : Float F⦄ (c : Coordinator F) (expiry_minutes : ℕ) where
  -- The state after one call, whether it returns or raises.
  unfoldable pub act : Action F → World F → World F
  unfolding step enqueue_approved_proposal process_queue_item process_ready_queue
  act (service r) w = record w { approvals = step c.settings.risk expiry_minutes r w.approvals }
  act (enqueueing clock now k cid proposal) w =
      (enqueue_approved_proposal c clock now k cid proposal w).1
  act (processing o k) w = (process_queue_item c o k w).1
  act (draining o limit) w = (process_ready_queue c o limit w).1

  unfoldable pub act_all : List (Action F) → World F → World F
  unfolding act
  act_all [] w = w
  act_all (a ∷ rest) w = act_all rest (act a w)

  module _ (Q : World F → Type 0) (keeps : Keeps Q)
      (adding : (r : QueueRecord F) (rows : List (QueueRecord F)) (w : World F)
        → Queue.create r w.queue ≡ ok rows
        → Q w
        → Q (record w { queue = rows })) where
    queue_created_kept :
        (symbol : String) (r : QueueRecord F) (w : World F)
        (m : Result String (List (QueueRecord F)))
        → ((rows : List (QueueRecord F)) → m ≡ ok rows → Q (record w { queue = rows }))
        → Q w
        → Q (queue_created c symbol r w m).1
    queue_created_kept symbol r w (err taken) go h = h
    queue_created_kept symbol r w (ok rows) go h = go rows refl

    enqueue_kept :
        (now k : ℕ) (cid : String) (p : TradeProposal F) (w : World F)
        → Q w
        → Q (enqueue c now k cid p w).1
    unfolding enqueue
    enqueue_kept now k cid p w h = elim (Bool-cases (is_approved p.status)) [
      | inr other ↦ rw other h
      | inl approved ↦ elim (Bool-cases (Queue.has_open_for_symbol p.order.symbol w.queue)) [
        | inl taken ↦ rw (approved, taken) h
        | inr free ↦
            rw (approved, free)
              (queue_created_kept p.order.symbol (new_item c now k cid p) w
                (Queue.create (new_item c now k cid p) w.queue)
                (λ rows e. adding (new_item c now k cid p) rows w e h) h)
      ]
    ]

    enqueue_found_kept :
        (now k : ℕ) (cid : String) (w : World F)
        (m : Result (ProposalError F) (TradeProposal F) × Approvals.World F)
        → Q (record w { approvals = m.1 })
        → Q (enqueue_found c now k cid w m).1
    enqueue_found_kept now k cid w (err e, a) h = h
    enqueue_found_kept now k cid w (ok p, a) h = enqueue_kept now k cid p _ h

    process_next_kept :
        (first : Result (Failure F) (QueueRecord F) × World F)
        (rest : Result (Failure F) (List (QueueRecord F)) × World F)
        → Q first.1
        → Q rest.1
        → Q (process_next c first rest).1
    process_next_kept (err e, w) rest h k = h
    process_next_kept (ok r, w) (ok rs, v) h k = k
    process_next_kept (ok r, w) (err e, v) h k = k

    process_each_kept :
        (o : ℕ → Outside F) (rs : List (QueueRecord F)) (w : World F)
        → Q w
        → Q (process_each c o rs w).1
    unfolding process_each
    process_each_kept o [] w h = h
    process_each_kept o (r ∷ rs) w h =
        let first = process_queue_item c (o r.id) r.id w in
        let kept : Q first.1 = process_queue_item_kept c (o r.id) Q keeps r.id w h in
        process_next_kept first (process_each c o rs first.1) kept
          (process_each_kept o rs first.1 kept)

    module _ (Fits : Request F → Type 0)
        (serving : (r : Request F) (w : World F)
          → Fits r
          → Q w
          → Q (record w { approvals = step c.settings.risk expiry_minutes r w.approvals })) where
      pub act_kept : (a : Action F) (w : World F) → Serves Fits a → Q w → Q (act a w)
      unfolding act
      act_kept (service r) w fits h = serving r w fits h
      act_kept (enqueueing clock now k cid proposal) w fits h =
          enqueue_found_kept now k cid w (get_proposal clock proposal w.approvals)
            (keeps.reading clock proposal w h)
      act_kept (processing o k) w fits h = process_queue_item_kept c o Q keeps k w h
      act_kept (draining o limit) w fits h = process_each_kept o _ w h

      pub act_all_kept :
          (rest : List (Action F)) (w : World F) → All (Serves Fits) rest → Q w → Q (act_all rest w)
      unfolding act_all
      act_all_kept [] w fit h = h
      act_all_kept (a ∷ rest) w (fits, fit) h = act_all_kept rest _ fit (act_kept a w fits h)
