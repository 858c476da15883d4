-- ===== src/Execution/OneOpen.antt =====
-- app/approvals/service.py and app/execution/coordinator.py together: the open items of the queue for
-- one symbol.
use algo_trader.Prelude.{
  ℕ, ◌≤◌, String, ◌≡◌, refl, inl, inr, true, false, Bool, some, List, [], ◌∷◌, arith, All,
}
use mathlib.Core.Path.{subst}
use algo_trader.Result.{ok}
use algo_trader.Float.{Float}
use algo_trader.Execution.{QueueStatus, QueueRecord, World, Coordinator, is_open_item}
use algo_trader.Execution.Queue
use algo_trader.Execution.Queue.Claims.{claim-result}
use algo_trader.Execution.Queue.Unique.{
  id_count, open_count, id_count-update, id_count-start, id_count-create, open_count-update,
  open_count-claim, open_count-create,
}
use algo_trader.Execution.Keeps.{Keeps, is_outcome}
use algo_trader.Execution.Actions.{
  Action, service, enqueueing, processing, draining, Serves, act_all, act_all_kept,
}

closed_of_outcome : (t : QueueStatus) → is_outcome t ≡ true → is_open_item t ≡ false
closed_of_outcome QueueStatus.executed e = refl
closed_of_outcome QueueStatus.blocked e = refl
closed_of_outcome QueueStatus.cancelled e = refl
closed_of_outcome QueueStatus.failed e = refl
closed_of_outcome QueueStatus.queued e = cc
closed_of_outcome QueueStatus.processing e = cc

module _ {F : Type 0} (s : String) where
  -- No two rows have one id, and no two open rows the symbol.
  abbrev IsSingle : List (QueueRecord F) → Type 0
  IsSingle rows = ((k : ℕ) → id_count k rows ≤ 1) × (open_count s rows ≤ 1)

  update-IsSingle :
      (r : QueueRecord F) (rows : List (QueueRecord F))
      → is_open_item r.status ≡ false
      → IsSingle rows
      → IsSingle (Queue.update r rows)
  update-IsSingle r rows closed (ids, one) = (
    λ k. omega (arith, id_count-update k r rows, ids k),
    omega (arith, open_count-update s r rows closed, one),
  )

  start-IsSingle :
      (now : ℕ) (r : QueueRecord F) (rows : List (QueueRecord F))
      → Queue.get r.id rows ≡ some r
      → Queue.violates r.id r.symbol rows ≡ false
      → IsSingle rows
      → IsSingle (Queue.start now r.id rows)
  start-IsSingle now r rows found free (ids, one) = (
    λ k. omega (arith, id_count-start k now r.id rows, ids k),
    open_count-claim s now r.id r rows found free (ids r.id) one,
  )

  claim-IsSingle :
      (stale now k : ℕ) (b : Bool) (v rows : List (QueueRecord F))
      → Queue.claim_for_processing stale now k rows ≡ ok (b, v)
      → IsSingle rows
      → IsSingle v
  claim-IsSingle stale now k b v rows e single = elim (claim-result stale now k rows b v e) [
    | inl same ↦ subst IsSingle same single
    | inr (r, found, free, begun) ↦
        subst IsSingle begun (start-IsSingle now r rows found free single)
  ]

  Keeps-IsSingle : Keeps (λ (w : World F). IsSingle w.queue)
  Keeps-IsSingle = record {
    executions = λ xs w h. h;
    call = λ x w h. h;
    automation = λ a w h. h;
    reading = λ clock k w h. h;
    marking = λ clock k x w h. h;
    settling = λ r w ended h. update-IsSingle r w.queue (closed_of_outcome r.status ended) h;
    claiming = λ stale now k b rows w e h. claim-IsSingle stale now k b rows w.queue e h;
  }

one_action : {F : Type 0} (a : Action F) → Serves (λ r. Unit {0}) a
one_action (service r) = tt
one_action (enqueueing clock now k cid p) = tt
one_action (processing o k) = tt
one_action (draining o limit) = tt

every_action : {F : Type 0} (rest : List (Action F)) → All (Serves (λ r. Unit {0})) rest
every_action [] = tt
every_action (a ∷ rest) = (one_action a, every_action rest)

module _ {F : Type 0} ⦃n : Float F⦄ (c : Coordinator F) (expiry_minutes : ℕ) where
  -- Whatever calls are made of the approval service and of the coordinator, at most one item of a
  -- symbol is queued or processing, if that is so before and no two items share an id.
  pub act_all-one_open :
      (s : String) (rest : List (Action F)) (w : World F)
      → ((k : ℕ) → id_count k w.queue ≤ 1)
      → open_count s w.queue ≤ 1
      → open_count s (act_all c expiry_minutes rest w).queue ≤ 1
  act_all-one_open s rest w ids one =
      (act_all_kept c expiry_minutes (λ v. IsSingle s v.queue) (Keeps-IsSingle s)
        (λ r rows v e h. (
          λ k. id_count-create k r v.queue rows e (h.0 k),
          open_count-create s r v.queue rows e h.1,
        ))
        (λ r. Unit {0}) (λ r v fits h. h) rest w (every_action rest) (ids, one)).1
