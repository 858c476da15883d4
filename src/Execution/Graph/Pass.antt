-- ===== src/Execution/Graph/Pass.antt =====
-- app/execution/coordinator.py, `_process_queue_item`: how the status of the item changes in a pass.
use algo_trader.Prelude.{
  ℕ, ◌≡◌, refl, ◌∙◌, inl, inr, true, Option, none, some, arith, ◌==◌, Bool-cases, or_else,
}
use mathlib.Core.Path.{subst}
use algo_trader.Result.{ok}
use algo_trader.Float.{Float}
use algo_trader.Execution.{
  QueueStatus, QueueRecord, ExecutionRecord, World, Coordinator, Outside, is_failed_attempt,
}
use algo_trader.Execution.Queue.{get, start, started, written, is_claimable, violates, claim_row}
use algo_trader.Execution.Queue.Claims.{get_id, get-own_id, get-start, claim_for_processing-some}
use algo_trader.Execution.Checks.{stale_before}
use algo_trader.Execution.Items.{is_final, saved, executed_item, is_recorded}
use algo_trader.Execution.Invariants.{claimed_item_kept, process_queue_item-some}
use algo_trader.Execution.Process.{
  after_claim, try_claim, with_latest, consider, process_queue_item,
}
use algo_trader.Execution.Graph.{
  ◌⟶◌, ◌⟶*◌, settle, stay, next, IsTaken, Follows, get-update, claim_step, taken_steps,
  Keeps-IsTaken,
}

module _ {F : Type 0} ⦃n : Float F⦄ (c : Coordinator F) (o : Outside F) (r : QueueRecord F)
    (w : World F) (found : get r.id w.queue ≡ some r) where
  claimed_item-Follows :
      (now : ℕ)
      → r.status ⟶ QueueStatus.processing
      → Follows r.id r.status (after_claim c o r w (ok (true, start now r.id w.queue))).1
  claimed_item-Follows now claim =
      let v = record w { queue = start now r.id w.queue } in
      let (q, stored, taken) =
        claimed_item_kept c o (λ (u : World F). IsTaken r.id u.queue) (Keeps-IsTaken r.id)
          (or_else (get r.id (start now r.id w.queue)) r) v
          (started now r, get-start now r.id r w.queue found, refl) in
      (q, stored, taken_steps r.status q.status claim taken)

  unchanged : Follows r.id r.status w
  unchanged = (r, found, stay)

  after_claim-Follows :
      (stale now : ℕ)
      → Follows r.id r.status (after_claim c o r w (claim_row stale now r w.queue)).1
  after_claim-Follows stale now = elim (Bool-cases (is_claimable stale r.status r.updated_at)) [
    | inr settled ↦ rw settled unchanged
    | inl open_again ↦ elim (Bool-cases (violates r.id r.symbol w.queue)) [
      | inl refused ↦ rw (open_again, refused) unchanged
      | inr free ↦
          rw (open_again, free)
            (claimed_item-Follows now (claim_step stale r.updated_at r.status open_again))
    ]
  ]

  try_claim-Follows : Follows r.id r.status (try_claim c o r w).1
  unfolding try_claim
  try_claim-Follows = elim (Bool-cases (is_final r.status)) [
    | inl settled ↦ rw settled unchanged
    | inr pending ↦
        let stale = stale_before c.settings.workflow_lock_timeout_minutes o.stale_checked in
        rw (pending, claim_for_processing-some stale o.claimed r.id r w.queue found)
          (after_claim-Follows stale o.claimed)
  ]

  own_id : (r.id == r.id) ≡ true
  own_id = ground arith

  saved-Follows :
      (since k : ℕ) → Follows r.id r.status (saved (executed_item o.settled since k r) w).1
  unfolding saved
  saved-Follows since k = (
    written (executed_item o.settled since k r) r,
    get-update r.id (executed_item o.settled since k r) r w.queue found ∙ rw own_id refl,
    next stay (settle r.status),
  )

  with_latest-Follows :
      (x : Option (ExecutionRecord F)) → Follows r.id r.status (with_latest c o r w x).1
  with_latest-Follows none = try_claim-Follows
  with_latest-Follows (some x) = elim (Bool-cases (is_failed_attempt x.status)) [
    | inl failed ↦ rw failed try_claim-Follows
    | inr alive ↦ rw alive (saved-Follows (or_else r.executed_at x.updated_at) x.id)
  ]

  consider-Follows : Follows r.id r.status (consider c o r w).1
  unfolding consider
  consider-Follows = elim (Bool-cases (is_recorded r w)) [
    | inl recorded ↦ rw recorded unchanged
    | inr fresh ↦ rw fresh (with_latest-Follows _)
  ]

-- A pass over a stored item leaves it stored, and changes its status by the changes of `◌⟶◌` alone,
-- whatever is answered and whether or not the pass raises.
pub process_queue_item-steps :
    {F : Type 0} ⦃n : Float F⦄ (c : Coordinator F) (o : Outside F) (k : ℕ) (w : World F)
    (r : QueueRecord F)
    → get k w.queue ≡ some r
    → (q : QueueRecord F) × (get k (process_queue_item c o k w).1.queue ≡ some q)
      × (r.status ⟶* q.status)
process_queue_item-steps c o k w r found = rw (process_queue_item-some c o k w r found) (
    subst (λ i. Follows i r.status (consider c o r w).1) (get_id k r w.queue found)
      (consider-Follows c o r w (get-own_id k r w.queue found)))
