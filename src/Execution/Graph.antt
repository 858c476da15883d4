-- ===== src/Execution/Graph.antt =====
-- app/execution/coordinator.py, `_process_queue_item`: the changes of an item's status, and the rows that
-- follow them.
pub mod Pass
use algo_trader.Prelude.{
  ℕ, ◌≡◌, refl, ap, ◌∙◌, inl, inr, Bool, true, some, List, [], ◌∷◌, ◌==◌, if◌then◌else◌, Bool-cases,
}
use mathlib.Core.Path.{subst}
use mathlib.Core.Option.{some-injective}
use algo_trader.Result.{ok}
use algo_trader.Execution.{QueueStatus, QueueRecord, World}
use algo_trader.Execution.Queue
use algo_trader.Execution.Queue.{get, update, start, started, written, is_claimable}
use algo_trader.Execution.Queue.Claims.{claim-result}
use algo_trader.Execution.Keeps.{Keeps, is_outcome}

infix 20 ◌⟶◌
infix 20 ◌⟶*◌
-- One change of an item's status.
pub data ◌⟶◌ : QueueStatus → QueueStatus → Type 0 where
  claim_queued : QueueStatus.queued ⟶ QueueStatus.processing
  claim_blocked : QueueStatus.blocked ⟶ QueueStatus.processing
  reclaim : QueueStatus.processing ⟶ QueueStatus.processing
  refuse : QueueStatus.processing ⟶ QueueStatus.blocked
  complete : QueueStatus.processing ⟶ QueueStatus.executed
  settle : (s : QueueStatus) → s ⟶ QueueStatus.executed

-- Any number of them.
pub data ◌⟶*◌ (s : QueueStatus) : QueueStatus → Type 0 where
  stay : s ⟶* s
  next : {t u : QueueStatus} → s ⟶* t → t ⟶ u → s ⟶* u

-- What a claimed item can be.
abbrev pub is_taken : QueueStatus → Bool
is_taken QueueStatus.processing = true
is_taken s = is_outcome s

outcome_is_taken : (s : QueueStatus) → is_outcome s ≡ true → is_taken s ≡ true
outcome_is_taken QueueStatus.executed e = refl
outcome_is_taken QueueStatus.blocked e = refl
outcome_is_taken QueueStatus.processing e = refl
outcome_is_taken QueueStatus.queued e = cc
outcome_is_taken QueueStatus.cancelled e = cc
outcome_is_taken QueueStatus.failed e = cc

pub claim_step :
    (stale at_time : ℕ) (s : QueueStatus)
    → is_claimable stale s at_time ≡ true
    → s ⟶ QueueStatus.processing
unfolding is_claimable
claim_step stale at_time QueueStatus.queued e = claim_queued
claim_step stale at_time QueueStatus.blocked e = claim_blocked
claim_step stale at_time QueueStatus.processing e = reclaim
claim_step stale at_time QueueStatus.executed e = cc
claim_step stale at_time QueueStatus.cancelled e = cc
claim_step stale at_time QueueStatus.failed e = cc

pub taken_steps : (s t : QueueStatus) → s ⟶ QueueStatus.processing → is_taken t ≡ true → s ⟶* t
taken_steps s QueueStatus.processing claim e = next stay claim
taken_steps s QueueStatus.blocked claim e = next (next stay claim) refuse
taken_steps s QueueStatus.executed claim e = next (next stay claim) complete
taken_steps s QueueStatus.queued claim e = cc
taken_steps s QueueStatus.cancelled claim e = cc
taken_steps s QueueStatus.failed claim e = cc

module _ {F : Type 0} where
  abbrev after_update : QueueRecord F → QueueRecord F → QueueRecord F
  after_update r q = if r.id == q.id then written r q else q

  abbrev after_start : ℕ → ℕ → QueueRecord F → QueueRecord F
  after_start now i q = if i == q.id then started now q else q

  pub get-update :
      (k : ℕ) (r q : QueueRecord F) (rows : List (QueueRecord F))
      → get k rows ≡ some q
      → get k (update r rows) ≡ some (after_update r q)
  unfolding get update
  get-update k r q [] e = cc
  get-update k r q (h ∷ rows) e = elim (Bool-cases (k == h.id)) [
    | inl same ↦
        let found : some h ≡ some q = rw same at e in
        let here : get k (after_update r h ∷ update r rows) ≡ some (after_update r h) =
          elim (Bool-cases (r.id == h.id)) [
            | inl own ↦ rw (own, same) refl
            | inr apart ↦ rw (apart, same) refl
          ] in
        here ∙ ap (λ x. some (after_update r x)) (some-injective h q found)
    | inr other ↦
        let rest = get-update k r q rows (rw other at e) in
        elim (Bool-cases (r.id == h.id)) [
          | inl own ↦ rw (own, other) rest
          | inr apart ↦ rw (apart, other) rest
        ]
  ]

  get-start_any :
      (k now i : ℕ) (q : QueueRecord F) (rows : List (QueueRecord F))
      → get k rows ≡ some q
      → get k (start now i rows) ≡ some (after_start now i q)
  unfolding get start
  get-start_any k now i q [] e = cc
  get-start_any k now i q (h ∷ rows) e = elim (Bool-cases (k == h.id)) [
    | inl same ↦
        let found : some h ≡ some q = rw same at e in
        let here : get k (after_start now i h ∷ start now i rows) ≡ some (after_start now i h) =
          elim (Bool-cases (i == h.id)) [
            | inl own ↦ rw (own, same) refl
            | inr apart ↦ rw (apart, same) refl
          ] in
        here ∙ ap (λ x. some (after_start now i x)) (some-injective h q found)
    | inr other ↦
        let rest = get-start_any k now i q rows (rw other at e) in
        elim (Bool-cases (i == h.id)) [
          | inl own ↦ rw (own, other) rest
          | inr apart ↦ rw (apart, other) rest
        ]
  ]

  -- The row is stored with a status that a claimed item can have.
  abbrev pub IsTaken : ℕ → List (QueueRecord F) → Type 0
  IsTaken k rows = (q : QueueRecord F) × (get k rows ≡ some q) × (is_taken q.status ≡ true)

  update-IsTaken :
      (k : ℕ) (r : QueueRecord F) (rows : List (QueueRecord F))
      → is_outcome r.status ≡ true
      → IsTaken k rows
      → IsTaken k (update r rows)
  update-IsTaken k r rows ended (q, found, taken) = (
    after_update r q,
    get-update k r q rows found,
    elim (Bool-cases (r.id == q.id)) [
      | inl own ↦ rw own (outcome_is_taken r.status ended)
      | inr apart ↦ rw apart taken
    ],
  )

  start-IsTaken :
      (k now i : ℕ) (rows : List (QueueRecord F)) → IsTaken k rows → IsTaken k (start now i rows)
  start-IsTaken k now i rows (q, found, taken) = (
    after_start now i q,
    get-start_any k now i q rows found,
    elim (Bool-cases (i == q.id)) [ inl own ↦ rw own refl | inr apart ↦ rw apart taken ],
  )

  claim-IsTaken :
      (stale now i k : ℕ) (b : Bool) (v rows : List (QueueRecord F))
      → Queue.claim_for_processing stale now i rows ≡ ok (b, v)
      → IsTaken k rows
      → IsTaken k v
  claim-IsTaken stale now i k b v rows e taken = elim (claim-result stale now i rows b v e) [
    | inl same ↦ subst (IsTaken k) same taken
    | inr (r, found, free, begun) ↦ subst (IsTaken k) begun (start-IsTaken k now r.id rows taken)
  ]

  pub Keeps-IsTaken : (k : ℕ) → Keeps (λ (w : World F). IsTaken k w.queue)
  Keeps-IsTaken k = record {
    executions = λ xs w h. h;
    call = λ x w h. h;
    automation = λ a w h. h;
    reading = λ clock i w h. h;
    marking = λ clock i x w h. h;
    settling = λ r w ended h. update-IsTaken k r w.queue ended h;
    claiming = λ stale now i b rows w e h. claim-IsTaken stale now i k b rows w.queue e h;
  }

  -- The row is stored, with a status that the changes lead to.
  abbrev pub Follows : ℕ → QueueStatus → World F → Type 0
  Follows k s w = (q : QueueRecord F) × (get k w.queue ≡ some q) × (s ⟶* q.status)
