-- ===== src/Approvals/Invariant.antt =====
-- What every proposal of app/approvals/service.py satisfies after any sequence of calls.
use algo_trader.Prelude.{
  ℕ, String, ◌≡◌, inl, inr, true, false, not, ◌&&◌, Option, List, [], ◌∷◌, str_eq, Bool-cases,
  Option-cases, All,
}
use mathlib.Core.Bool.{false≢true}
use algo_trader.Result.{Result, Result-cases}
use algo_trader.Float.{Float}
use algo_trader.Models.{TradeOrder, TradeProposalCreate, TradeProposal, ApprovalDecisionRequest}
use algo_trader.Broker.Resolver.{resolve}
use algo_trader.Risk.Settings.{RiskSettings}
use algo_trader.Risk.Context.{RiskContext}
use algo_trader.Risk.Guardrails.{validate_order}
use algo_trader.Approvals.{
  ProposalError, World, Clock, auto_reviewer, is_open, is_pending, expire, approve, reject, execute,
  is_stale, expire_if_needed, get_proposal, expire_each, list_proposals, decide_approval,
  decide_rejection, record_execution, with_proposal, approve_proposal, reject_proposal,
  mark_executed, to_order,
}
use algo_trader.Approvals.Calls.{
  get_proposal-none, get_proposal-some, with_proposal-none, with_proposal-some,
  create_proposal_unsupported, create_proposal_resolved,
}
use algo_trader.Approvals.Store.{get, update, list}
use algo_trader.Approvals.Creation.{
  Surroundings, new_proposal, inserted, store_proposal, create_proposal,
}
use algo_trader.Approvals.Requests.{
  Request, creation, reading, listing, approval, rejection, execution, step, run,
}
use algo_trader.Approvals.Rows.{All-append_one, create_cases, All-get, All-update, All-list}

module _ {F : Type 0} where
  pub open_of_stale : (t : ℕ) (p : TradeProposal F) → is_stale t p ≡ true → is_open p.status ≡ true
  unfolding is_stale
  open_of_stale t p e = elim (Bool-cases (is_open p.status)) [
    | inl still ↦ still
    | inr closed ↦ absurd (false≢true (rw closed at e))
  ]

  -- A property of a proposal that the service's changes keep, whenever they are made.
  pub record Kept (P : TradeProposal F → Type 0) : Type 0 where
    pub on_time : (t : ℕ) (p : TradeProposal F) → P p → P (record p { created_at = t })
    pub on_expire : (t : ℕ) (p : TradeProposal F) → is_open p.status ≡ true → P p → P (expire t p)
    pub on_approve :
        (t : ℕ) (d : ApprovalDecisionRequest) (p : TradeProposal F)
        → is_pending p.status ≡ true
        → (p.order.metadata.paper_only && not (str_eq d.reviewer auto_reviewer)) ≡ false
        → P p
        → P (approve t d p)
    pub on_reject :
        (t : ℕ) (d : ApprovalDecisionRequest) (p : TradeProposal F)
        → is_open p.status ≡ true
        → P p
        → P (reject t d p)
    pub on_execute : (t x : ℕ) (p : TradeProposal F) → P p → P (execute t x p)

  module _ (P : TradeProposal F → Type 0) (kept : Kept P) where
    abbrev Holds : World F → Type 0
    Holds w = All P w.proposals

    update_kept :
        (q : TradeProposal F) (rows : List (TradeProposal F))
        → P q
        → All P rows
        → All P (update q rows)
    update_kept q rows here all = All-update P q rows (λ t. kept.on_time t q here) all

    expire_if_needed_kept :
        (c : Clock) (p : TradeProposal F) (w : World F)
        → P p
        → Holds w
        → let (q, w') = expire_if_needed c p w in P q × Holds w'
    unfolding expire_if_needed
    expire_if_needed_kept c p w here all = elim (Bool-cases (is_stale c.checked p)) [
      | inl stale ↦
          let gone = kept.on_expire c.expired p (open_of_stale c.checked p stale) here in
          rw stale (gone, update_kept (expire c.expired p) w.proposals gone all)
      | inr fresh ↦ rw fresh (here, all)
    ]

    expire_each_kept :
        (clock : ℕ → Clock) (rows : List (TradeProposal F)) (w : World F)
        → All P rows
        → Holds w
        → Holds (expire_each clock rows w).1
    unfolding expire_each
    expire_each_kept clock [] w these all = all
    expire_each_kept clock (p ∷ rows) w (this, these) all =
        expire_each_kept clock rows _ these (expire_if_needed_kept (clock p.id) p w this all).1

    with_proposal_kept :
        (c : Clock) (k : ℕ)
        (rest : TradeProposal F → World F → Result (ProposalError F) (TradeProposal F) × World F)
        (w : World F)
        → ((p : TradeProposal F) (v : World F) → P p → Holds v → Holds (rest p v).1)
        → Holds w
        → Holds (with_proposal c k rest w).1
    with_proposal_kept c k rest w go all = elim (Option-cases (get k w.proposals)) [
      | inl missing ↦ rw (with_proposal-none c k w rest missing) all
      | inr (p, found) ↦
          let (here, there) =
            expire_if_needed_kept c p w (All-get P k p w.proposals found all) all in
          rw (with_proposal-some c k w rest p found) (go _ _ here there)
    ]

    get_proposal_kept : (c : Clock) (k : ℕ) (w : World F) → Holds w → Holds (get_proposal c k w).1
    get_proposal_kept c k w all = elim (Option-cases (get k w.proposals)) [
      | inl missing ↦ rw (get_proposal-none c k w missing) all
      | inr (p, found) ↦
          rw (get_proposal-some c k w p found)
            ((expire_if_needed_kept c p w (All-get P k p w.proposals found all) all).1)
    ]

    decide_approval_kept :
        (c : Clock) (d : ApprovalDecisionRequest) (p : TradeProposal F) (w : World F)
        → P p
        → Holds w
        → Holds (decide_approval c d p w).1
    unfolding decide_approval
    decide_approval_kept c d p w here all = elim (Bool-cases (is_pending p.status)) [
      | inr settled ↦ rw settled all
      | inl pending ↦
          elim (Bool-cases (p.order.metadata.paper_only && not (str_eq d.reviewer auto_reviewer))) [
            | inl by_hand ↦ rw (pending, by_hand) all
            | inr free ↦
                rw (pending, free)
                  (update_kept _ w.proposals (kept.on_approve c.stamped d p pending free here) all)
          ]
    ]

    decide_rejection_kept :
        (c : Clock) (d : ApprovalDecisionRequest) (p : TradeProposal F) (w : World F)
        → P p
        → Holds w
        → Holds (decide_rejection c d p w).1
    unfolding decide_rejection
    decide_rejection_kept c d p w here all = elim (Bool-cases (is_open p.status)) [
      | inr closed ↦ rw closed all
      | inl still ↦
          rw still (update_kept _ w.proposals (kept.on_reject c.stamped d p still here) all)
    ]

    record_execution_kept :
        (c : Clock) (x : ℕ) (p : TradeProposal F) (w : World F)
        → P p
        → Holds w
        → Holds (record_execution c x p w).1
    unfolding record_execution
    record_execution_kept c x p w here all =
        update_kept _ w.proposals (kept.on_execute c.stamped x p here) all

  -- The gate passed the order, in some account and with some verdict of the live room.
  abbrev pub IsAdmitted : ⦃n : Float F⦄ → RiskSettings F → TradeOrder F → Type 0
  IsAdmitted s o =
      (c : RiskContext F) × (room : Option (List String)) × ((validate_order s o c room).passed
        ≡ true)

  -- Every creation among the requests has surroundings of a kind.
  abbrev pub Creates : (Surroundings F → Type 0) → Request F → Type 0
  Creates Fits (creation e r) = Fits e
  Creates Fits _ = Unit

  module _ ⦃n : Float F⦄ (s : RiskSettings F) (expiry_minutes : ℕ) where
    module _ (P : TradeProposal F → Type 0) (kept : Kept P) (Fits : Surroundings F → Type 0)
        (created : (e : Surroundings F) (r : TradeProposalCreate F) (o : TradeOrder F)
          → Fits e
          → IsAdmitted s o
          → P (new_proposal expiry_minutes e r o)) where
      store_proposal_kept :
          (e : Surroundings F) (r : TradeProposalCreate F) (o : TradeOrder F) (c : RiskContext F)
          (room : Option (List String)) (w : World F)
          → Fits e
          → All P w.proposals
          → All P (store_proposal expiry_minutes e r o (validate_order s o c room) w).1.proposals
      unfolding store_proposal inserted
      store_proposal_kept e r o c room w fits all =
          elim (Bool-cases (validate_order s o c room).passed) [
            | inr refused ↦ rw refused all
            | inl passed ↦ elim (create_cases (new_proposal expiry_minutes e r o) w.proposals) [
              | inl taken ↦ rw (passed, taken) all
              | inr free ↦
                  rw (passed, free)
                    (All-append_one P _ w.proposals (created e r o fits (c, room, passed)) all)
            ]
          ]

      create_proposal_kept :
          (e : Surroundings F) (r : TradeProposalCreate F) (w : World F)
          → Fits e
          → All P w.proposals
          → All P (create_proposal s expiry_minutes e r w).1.proposals
      create_proposal_kept e r w fits all =
          elim (Result-cases (resolve s.instruments (to_order r).symbol)) [
            | inl (x, unknown) ↦
                rw (create_proposal_unsupported s expiry_minutes e r w x unknown) all
            | inr (i, known) ↦
                rw (create_proposal_resolved s expiry_minutes e r w i known)
                  (store_proposal_kept e r _ e.context _ w fits all)
          ]

      step_kept :
          (r : Request F) (w : World F)
          → Creates Fits r
          → All P w.proposals
          → All P (step s expiry_minutes r w).proposals
      unfolding step list_proposals approve_proposal reject_proposal mark_executed
      step_kept (creation e r) w fits all = create_proposal_kept e r w fits all
      step_kept (reading c k) w fits all = get_proposal_kept P kept c k w all
      step_kept (listing clock status) w fits all =
          expire_each_kept P kept clock (list status w.proposals) w
            (All-list P status w.proposals all) all
      step_kept (approval c k d) w fits all =
          with_proposal_kept P kept c k (decide_approval c d) w (decide_approval_kept P kept c d)
            all
      step_kept (rejection c k d) w fits all =
          with_proposal_kept P kept c k (decide_rejection c d) w (decide_rejection_kept P kept c d)
            all
      step_kept (execution c k x) w fits all =
          with_proposal_kept P kept c k (record_execution c x) w (record_execution_kept P kept c x)
            all

      pub run_kept_fitting :
          (rs : List (Request F)) (w : World F)
          → All (Creates Fits) rs
          → All P w.proposals
          → All P (run s expiry_minutes rs w).proposals
      unfolding run
      run_kept_fitting [] w fit all = all
      run_kept_fitting (r ∷ rs) w (fits, fit) all =
          run_kept_fitting rs _ fit (step_kept r w fits all)

    one_request : (r : Request F) → Creates (λ e. Unit {0}) r
    one_request (creation e r) = tt
    one_request (reading c k) = tt
    one_request (listing clock status) = tt
    one_request (approval c k d) = tt
    one_request (rejection c k d) = tt
    one_request (execution c k x) = tt

    every_request : (rs : List (Request F)) → All (Creates (λ e. Unit {0})) rs
    every_request [] = tt
    every_request (r ∷ rs) = (one_request r, every_request rs)

    pub run_kept :
        (P : TradeProposal F → Type 0)
        → Kept P
        → ((e : Surroundings F) (r : TradeProposalCreate F) (o : TradeOrder F)
            → IsAdmitted s o
            → P (new_proposal expiry_minutes e r o))
        → (rs : List (Request F)) (w : World F) → All P w.proposals
        → All P (run s expiry_minutes rs w).proposals
    run_kept P kept created rs w =
        run_kept_fitting P kept (λ e. Unit {0}) (λ e r o fits. created e r o) rs w
          (every_request rs)
