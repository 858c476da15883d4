-- ===== src/Approvals/Settled.antt =====
-- app/approvals/service.py: settled proposals through later calls.
use algo_trader.Prelude.{
  ℕ, ◌≡◌, refl, sym, ◌∙◌, ◌≢◌, inl, inr, Bool, true, false, not, ◌&&◌, some, List, [], ◌∷◌, str_eq,
  Bool-cases, Option-cases, All,
}
use mathlib.Core.Bool.{false≢true}
use mathlib.Core.Option.{some-injective}
use algo_trader.Result.{Result, Result-cases}
use algo_trader.Float.{Float}
use algo_trader.Models.{
  TradeOrder, TradeProposalCreate, ApprovalStatus, TradeProposal, ApprovalDecisionRequest,
}
use algo_trader.Broker.Resolver.{resolve}
use algo_trader.Risk.Settings.{RiskSettings}
use algo_trader.Risk.Context.{RiskValidationResult}
use algo_trader.Approvals.{
  ProposalError, World, Clock, is_open, is_pending, expire, approve, reject, is_stale,
  expire_if_needed, get_proposal, decide_approval, decide_rejection, with_proposal,
  approve_proposal, reject_proposal, auto_reviewer, to_order,
}
use algo_trader.Approvals.Store.{get}
use algo_trader.Approvals.Rows.{get_id, get-update_other, get-append-some, create_cases}
use algo_trader.Approvals.Creation.{
  Surroundings, new_proposal, inserted, store_proposal, create_proposal,
}
use algo_trader.Approvals.Invariant.{open_of_stale}
use algo_trader.Approvals.Requests.{
  Request, creation, reading, listing, approval, rejection, execution, step, run,
}
use algo_trader.Approvals.Calls.{
  with_proposal-none, with_proposal-some, get_proposal-none, get_proposal-some,
  create_proposal_unsupported, create_proposal_resolved,
}

abbrev pub is_decision : {F : Type 0} → Request F → Bool
is_decision (creation e r) = true
is_decision (reading c k) = true
is_decision (listing clock status) = false
is_decision (approval c k d) = true
is_decision (rejection c k d) = true
is_decision (execution c k x) = false

open_of_pending : (s : ApprovalStatus) → is_pending s ≡ true → is_open s ≡ true
open_of_pending ApprovalStatus.pending e = refl
open_of_pending ApprovalStatus.approved e = refl
open_of_pending ApprovalStatus.rejected e = cc
open_of_pending ApprovalStatus.expired e = cc
open_of_pending ApprovalStatus.executed e = cc

module _ {F : Type 0} where
  module _ (k : ℕ) (p : TradeProposal F) (closed : is_open p.status ≡ false) where
    abbrev Stored : World F → Type 0
    Stored w = get k w.proposals ≡ some p

    -- An open row is under another id.
    apart :
        (j : ℕ) (q : TradeProposal F) (w : World F)
        → Stored w
        → get j w.proposals ≡ some q
        → is_open q.status ≡ true
        → k ≢ q.id
    apart j q w at_k at_j still same =
        let here : get q.id w.proposals ≡ some p = rw same at at_k in
        let there : get q.id w.proposals ≡ some q =
          rw (sym (get_id j q w.proposals at_j)) at at_j in
        let one = some-injective p q (sym here ∙ there) in
        false≢true (sym (rw one at closed) ∙ still)

    expire_apart :
        (c : Clock) (q : TradeProposal F) (w : World F)
        → Stored w
        → (is_open q.status ≡ true → k ≢ q.id)
        → Stored (expire_if_needed c q w).1
          × (is_open (expire_if_needed c q w).0.status ≡ true → k ≢ (expire_if_needed c q w).0.id)
    unfolding expire_if_needed
    expire_apart c q w at_k other = elim (Bool-cases (is_stale c.checked q)) [
      | inl stale ↦ rw stale (
        get-update_other k (expire c.expired q) w.proposals
              (other (open_of_stale c.checked q stale))
            ∙ at_k,
        λ still. absurd (false≢true still),
      )
      | inr fresh ↦ rw fresh (at_k, other)
    ]

    decide_approval_apart :
        (c : Clock) (d : ApprovalDecisionRequest) (q : TradeProposal F) (w : World F)
        → Stored w
        → (is_open q.status ≡ true → k ≢ q.id)
        → Stored (decide_approval c d q w).1
    unfolding decide_approval
    decide_approval_apart c d q w at_k other = elim (Bool-cases (is_pending q.status)) [
      | inr settled ↦ rw settled at_k
      | inl pending ↦
          elim (Bool-cases (q.order.metadata.paper_only && not (str_eq d.reviewer auto_reviewer))) [
            | inl by_hand ↦ rw (pending, by_hand) at_k
            | inr free ↦
                rw (pending, free)
                  (get-update_other k (approve c.stamped d q) w.proposals
                      (other (open_of_pending q.status pending))
                    ∙ at_k)
          ]
    ]

    decide_rejection_apart :
        (c : Clock) (d : ApprovalDecisionRequest) (q : TradeProposal F) (w : World F)
        → Stored w
        → (is_open q.status ≡ true → k ≢ q.id)
        → Stored (decide_rejection c d q w).1
    unfolding decide_rejection
    decide_rejection_apart c d q w at_k other = elim (Bool-cases (is_open q.status)) [
      | inr settled ↦ rw settled at_k
      | inl still ↦
          rw still (get-update_other k (reject c.stamped d q) w.proposals (other still) ∙ at_k)
    ]

    with_proposal_apart :
        (c : Clock) (j : ℕ)
        (rest : TradeProposal F → World F → Result (ProposalError F) (TradeProposal F) × World F)
        (w : World F)
        → ((q : TradeProposal F) (v : World F)
            → Stored v
            → (is_open q.status ≡ true → k ≢ q.id)
            → Stored (rest q v).1)
        → Stored w
        → Stored (with_proposal c j rest w).1
    with_proposal_apart c j rest w go at_k = elim (Option-cases (get j w.proposals)) [
      | inl missing ↦ rw (with_proposal-none c j w rest missing) at_k
      | inr (q, found) ↦
          let (there, other) = expire_apart c q w at_k (apart j q w at_k found) in
          rw (with_proposal-some c j w rest q found) (go _ _ there other)
    ]

    get_proposal_apart :
        (c : Clock) (j : ℕ) (w : World F) → Stored w → Stored (get_proposal c j w).1
    get_proposal_apart c j w at_k = elim (Option-cases (get j w.proposals)) [
      | inl missing ↦ rw (get_proposal-none c j w missing) at_k
      | inr (q, found) ↦
          rw (get_proposal-some c j w q found)
            ((expire_apart c q w at_k (apart j q w at_k found)).0)
    ]

module _ {F : Type 0} ⦃n : Float F⦄ (s : RiskSettings F) (expiry_minutes : ℕ) (k : ℕ)
    (p : TradeProposal F) where
  store_proposal_apart :
      (e : Surroundings F) (r : TradeProposalCreate F) (o : TradeOrder F)
      (risk : RiskValidationResult F) (w : World F)
      → get k w.proposals ≡ some p
      → get k (store_proposal expiry_minutes e r o risk w).1.proposals ≡ some p
  unfolding store_proposal inserted
  store_proposal_apart e r o risk w at_k = elim (Bool-cases risk.passed) [
    | inr refused ↦ rw refused at_k
    | inl passed ↦ elim (create_cases (new_proposal expiry_minutes e r o) w.proposals) [
      | inl taken ↦ rw (passed, taken) at_k
      | inr free ↦ rw (passed, free) (get-append-some k _ p w.proposals at_k)
    ]
  ]

  create_proposal_apart :
      (e : Surroundings F) (r : TradeProposalCreate F) (w : World F)
      → get k w.proposals ≡ some p
      → get k (create_proposal s expiry_minutes e r w).1.proposals ≡ some p
  create_proposal_apart e r w at_k =
      elim (Result-cases (resolve s.instruments (to_order r).symbol)) [
        | inl (x, unknown) ↦ rw (create_proposal_unsupported s expiry_minutes e r w x unknown) at_k
        | inr (i, known) ↦
            rw (create_proposal_resolved s expiry_minutes e r w i known)
              (store_proposal_apart e r _ _ w at_k)
      ]

  step_apart :
      (r : Request F) (w : World F)
      → is_open p.status ≡ false
      → is_decision r ≡ true
      → get k w.proposals ≡ some p
      → get k (step s expiry_minutes r w).proposals ≡ some p
  unfolding step approve_proposal reject_proposal
  step_apart (creation e r) w closed this at_k = create_proposal_apart e r w at_k
  step_apart (reading c j) w closed this at_k = get_proposal_apart k p closed c j w at_k
  step_apart (listing clock status) w closed this at_k = absurd (false≢true this)
  step_apart (approval c j d) w closed this at_k =
      with_proposal_apart k p closed c j (decide_approval c d) w
        (decide_approval_apart k p closed c d) at_k
  step_apart (rejection c j d) w closed this at_k =
      with_proposal_apart k p closed c j (decide_rejection c d) w
        (decide_rejection_apart k p closed c d) at_k
  step_apart (execution c j x) w closed this at_k = absurd (false≢true this)

  -- A stored proposal that is rejected, expired or executed stays exactly as it is through any
  -- sequence of creations, reads, approvals and rejections, of itself and of others.
  pub run-settled :
      (rs : List (Request F)) (w : World F)
      → is_open p.status ≡ false
      → All (λ r. is_decision r ≡ true) rs
      → get k w.proposals ≡ some p
      → get k (run s expiry_minutes rs w).proposals ≡ some p
  unfolding run
  run-settled [] w closed these at_k = at_k
  run-settled (r ∷ rs) w closed (this, these) at_k =
      run-settled rs (step s expiry_minutes r w) closed these (step_apart r w closed this at_k)
