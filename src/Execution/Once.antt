-- ===== src/Execution/Once.antt =====
-- app/execution/coordinator.py: a proposal whose order went out is executed, and stays so, in whatever
-- order the services are called; the coordinator sends nothing for it again.
use algo_trader.Prelude.{
  ℕ, ◌≡◌, refl, ◌∙◌, ◌≢◌, inl, inr, true, List, [], ◌∷◌, arith, ◌==◌, Bool-cases, Option-cases, All,
}
use mathlib.Core.Bool.{false≢true}
use algo_trader.Result.{Result, ok, err}
use algo_trader.Float.{Float}
use algo_trader.Models.{ApprovalStatus, TradeProposal}
use algo_trader.Risk.Settings.{RiskSettings}
use algo_trader.Approvals
use algo_trader.Approvals.{
  Clock, ProposalError, is_open, is_pending, execute, expire_if_needed, is_stale, get_proposal,
  mark_executed, record_execution,
}
use algo_trader.Approvals.Store.{get, update}
use algo_trader.Approvals.Rows.{get_id}
use algo_trader.Approvals.Calls.{with_proposal-none, with_proposal-some}
use algo_trader.Approvals.Invariant.{Kept, Creates, run_kept_fitting}
use algo_trader.Approvals.Requests.{Request, reading, execution, step, run}
use algo_trader.Execution.{World, Failure}
use algo_trader.Execution.Records.{mark}
use algo_trader.Execution.Keeps.{Keeps}

pub open_not_done : (s : ApprovalStatus) → is_open s ≡ true → s ≢ ApprovalStatus.executed
open_not_done s still e = false≢true (rw e at still)

pending_not_done : (s : ApprovalStatus) → is_pending s ≡ true → s ≢ ApprovalStatus.executed
pending_not_done s waiting e = false≢true (rw e at waiting)

module _ {F : Type 0} where
  -- A proposal under the id k is executed.
  abbrev pub IsDone : ℕ → TradeProposal F → Type 0
  IsDone k p = p.id ≡ k → p.status ≡ ApprovalStatus.executed

  Kept-IsDone : (k : ℕ) → Kept (IsDone k)
  Kept-IsDone k = record {
    on_time = λ t p known. known;
    on_expire = λ t p still known same. absurd (open_not_done p.status still (known same));
    on_approve =
        λ t d p waiting free known same. absurd (pending_not_done p.status waiting (known same));
    on_reject = λ t d p still known same. absurd (open_not_done p.status still (known same));
    on_execute = λ t x p known same. refl;
  }

  update-IsDone :
      (k : ℕ) (q : TradeProposal F) (rows : List (TradeProposal F))
      → q.id ≡ k
      → q.status ≡ ApprovalStatus.executed
      → All (IsDone k) (update q rows)
  unfolding update
  update-IsDone k q [] same done = tt
  update-IsDone k q (p ∷ rows) same done = elim (Bool-cases (q.id == p.id)) [
    | inl this ↦ rw this (λ e. done, update-IsDone k q rows same done)
    | inr other ↦ rw other (λ e. absurd (ground (arith, e, same)), update-IsDone k q rows same done)
  ]

  pub expire_if_needed-id :
      (c : Clock) (p : TradeProposal F) (w : Approvals.World F)
      → (expire_if_needed c p w).0.id ≡ p.id
  unfolding expire_if_needed
  expire_if_needed-id c p w = ground arith

  abbrev pub Done : ℕ → World F → Type 0
  Done k w = All (IsDone k) w.approvals.proposals

  -- Of a call that returns, the proposal is done.
  abbrev pub OkDone : {A : Type 0} → ℕ → Result (Failure F) A × World F → Type 0
  OkDone k (ok x, w) = Done k w
  OkDone k (err e, w) = Unit

  pub mark-Done :
      {A : Type 0} (clock : Clock) (k e : ℕ) (x : A) (w : World F) → OkDone k (mark clock k e x w)
  unfolding mark mark_executed record_execution
  mark-Done clock k e x w = elim (Option-cases (get k w.approvals.proposals)) [
    | inl missing ↦
        rw (with_proposal-none clock k w.approvals (record_execution clock e) missing) tt
    | inr (p, found) ↦
        rw (with_proposal-some clock k w.approvals (record_execution clock e) p found) (
          update-IsDone k _ _
            (expire_if_needed-id clock p w.approvals ∙ get_id k p w.approvals.proposals found) refl)
  ]

module _ {F : Type 0} ⦃n : Float F⦄ (s : RiskSettings F) (expiry_minutes : ℕ) (k : ℕ) where
  -- The id of a new proposal is not k.
  abbrev pub IsFresh : Request F → Type 0
  IsFresh = Creates (λ e. e.new_id ≢ k)

  pub step-Done :
      (r : Request F) (w : Approvals.World F)
      → IsFresh r
      → All (IsDone k) w.proposals
      → All (IsDone k) (step s expiry_minutes r w).proposals
  unfolding run
  step-Done r w fresh all =
      run_kept_fitting s expiry_minutes (IsDone k) (Kept-IsDone k) (λ e. e.new_id ≢ k)
        (λ e q o other admitted same. absurd (other same)) (r ∷ []) w (fresh, tt) all

  pub Keeps-Done : Keeps {F = F} (Done k)
  unfolding step
  Keeps-Done = record {
    executions = λ xs w h. h;
    call = λ x w h. h;
    automation = λ a w h. h;
    reading = λ clock j w h. step-Done (reading clock j) w.approvals tt h;
    marking = λ clock j x w h. step-Done (execution clock j x) w.approvals tt h;
    settling = λ r w closed h. h;
    claiming = λ stale now j b rows w e h. h;
  }
