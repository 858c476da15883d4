-- ===== src/Approvals/Decisions.antt =====
-- app/approvals/service.py: when an approval succeeds, and what it returns.
use algo_trader.Prelude.{
  ℕ, ◌<◌, String, ◌≡◌, refl, sym, ◌↔◌, inl, inr, Bool, true, false, not, ◌&&◌, some, arith, str_eq,
  eq_iff, Bool-cases, Option-cases,
}
use mathlib.Core.Bool.{false≢true}
use mathlib.Core.Option.{some-injective}
use algo_trader.Result.{ok, err, ok-injective}
use algo_trader.Models.{ApprovalStatus, TradeProposal, ApprovalDecisionRequest}
use algo_trader.Approvals.{
  World, Clock, not_found, not_pending, automatic_only, auto_reviewer, is_pending, expire, approve,
  is_stale, expire_if_needed, decide_approval, approve_proposal,
}
use algo_trader.Approvals.Provenance.{automatic_reviewer}
use algo_trader.Approvals.Store.{get}
use algo_trader.Approvals.Calls.{with_proposal-none, with_proposal-some}

status-pending : (s : ApprovalStatus) → is_pending s ≡ true → s ≡ ApprovalStatus.pending
status-pending ApprovalStatus.pending e = refl
status-pending ApprovalStatus.approved e = cc
status-pending ApprovalStatus.rejected e = cc
status-pending ApprovalStatus.expired e = cc
status-pending ApprovalStatus.executed e = cc

not_hand_approved :
    (paper_only : Bool) (reviewer : String)
    → (paper_only ≡ true → reviewer ≡ auto_reviewer)
    → (paper_only && not (str_eq reviewer auto_reviewer)) ≡ false
not_hand_approved true reviewer by = ground (arith, by refl, eq_iff reviewer auto_reviewer)
not_hand_approved false reviewer by = refl

module _ {F : Type 0} where
  -- Why the approval of the proposal `k` is allowed, and what it makes.
  pub record MayApprove (c : Clock) (k : ℕ) (d : ApprovalDecisionRequest) (w : World F)
      (q : TradeProposal F) : Type 0 where
    pub before : TradeProposal F
    pub stored : get k w.proposals ≡ some before
    pub pending : before.status ≡ ApprovalStatus.pending
    pub in_time : c.checked < before.expires_at
    pub reviewer : before.order.metadata.paper_only ≡ true → d.reviewer ≡ auto_reviewer
    pub result : q ≡ approve c.stamped d before

  decide_approval_ok :
      (c : Clock) (d : ApprovalDecisionRequest) (p q : TradeProposal F) (w : World F)
      → (decide_approval c d p w).0 ≡ ok q
      → (is_pending p.status ≡ true)
        × ((p.order.metadata.paper_only && not (str_eq d.reviewer auto_reviewer)) ≡ false)
        × (q ≡ approve c.stamped d p)
  unfolding decide_approval
  decide_approval_ok c d p q w e = elim (Bool-cases (is_pending p.status)) [
    | inr settled ↦ let refused : err not_pending ≡ ok q = rw settled at e in cc
    | inl pending ↦
        elim (Bool-cases (p.order.metadata.paper_only && not (str_eq d.reviewer auto_reviewer))) [
          | inl by_hand ↦ let refused : err automatic_only ≡ ok q = rw (pending, by_hand) at e in cc
          | inr free ↦
              let made : ok (approve c.stamped d p) ≡ ok q = rw (pending, free) at e in
              (pending, free, ok-injective q _ (ok q) refl (sym made))
        ]
  ]

  is_stale_pending :
      (t : ℕ) (p : TradeProposal F)
      → p.status ≡ ApprovalStatus.pending
      → (is_stale t p ≡ false) ↔ (t < p.expires_at)
  unfolding is_stale
  is_stale_pending t p e = rw (e) ((λ fresh. ground (arith, fresh), λ early. ground (arith, early)))

  expire_if_needed_fresh :
      (c : Clock) (p : TradeProposal F) (w : World F)
      → is_stale c.checked p ≡ false
      → expire_if_needed c p w ≡ (p, w)
  unfolding expire_if_needed
  expire_if_needed_fresh c p w e = rw (e, expire_if_needed)

  expire_if_needed_stale :
      (c : Clock) (p : TradeProposal F) (w : World F)
      → is_stale c.checked p ≡ true
      → (expire_if_needed c p w).0 ≡ expire c.expired p
  unfolding expire_if_needed
  expire_if_needed_stale c p w e = rw (e, expire_if_needed)

  module _ (c : Clock) (k : ℕ) (d : ApprovalDecisionRequest) (w : World F)
      (q : TradeProposal F) where
    approved_only_if : (approve_proposal c k d w).0 ≡ ok q → MayApprove c k d w q
    unfolding approve_proposal
    approved_only_if e = elim (Option-cases (get k w.proposals)) [
      | inl missing ↦
          let refused : err (not_found k) ≡ ok q =
            rw (with_proposal-none c k w (decide_approval c d) missing) at e in
          cc
      | inr (p, found) ↦
          let e' = rw (with_proposal-some c k w (decide_approval c d) p found) at e in
          elim (Bool-cases (is_stale c.checked p)) [
            | inl stale ↦
                let (pending, _, _) =
                  decide_approval_ok c d (expire_if_needed c p w).0 q (expire_if_needed c p w).1
                    e' in
                let gone : false ≡ true = rw (expire_if_needed_stale c p w stale) at pending in
                absurd (false≢true gone)
            | inr fresh ↦
                let (pending, free, made) =
                  decide_approval_ok c d p q w (rw (expire_if_needed_fresh c p w fresh) at e') in
                let pending' = status-pending p.status pending in
                record {
                  before = p;
                  stored = found;
                  pending = pending';
                  in_time = (is_stale_pending c.checked p pending').0 fresh;
                  reviewer = λ tagged.
                      some-injective _ _
                        (automatic_reviewer p.order.metadata.paper_only d.reviewer free tagged);
                  result = made;
                }
          ]
    ]

    approved_if : MayApprove c k d w q → (approve_proposal c k d w).0 ≡ ok q
    unfolding approve_proposal decide_approval
    approved_if may =
        let p = may.before in
        let fresh = (is_stale_pending c.checked p may.pending).1 may.in_time in
        let free = not_hand_approved p.order.metadata.paper_only d.reviewer may.reviewer in
        rw (
          with_proposal-some c k w (decide_approval c d) p may.stored,
          expire_if_needed_fresh c p w fresh,
          may.pending,
          free,
          may.result,
        )

    -- An approval succeeds just if the proposal is stored and pending, its expiry lies after the
    -- time at which it is checked, and, if it is tagged paper-only, the reviewer is the unattended
    -- path; it then returns the stored proposal with the decision written into it.
    pub approve_proposal-ok_iff : ((approve_proposal c k d w).0 ≡ ok q) ↔ MayApprove c k d w q
    approve_proposal-ok_iff = (approved_only_if, approved_if)
