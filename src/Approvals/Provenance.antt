-- ===== src/Approvals/Provenance.antt =====
-- app/approvals/service.py, from an empty store: where every stored proposal comes from, and who
-- approved it.
use algo_trader.Prelude.{
  ℕ, String, ◌≡◌, ap, Bool, true, false, not, ◌&&◌, some, List, arith, str_eq, eq_iff, All,
}
use algo_trader.Float.{Float}
use algo_trader.Models.{ApprovalStatus, TradeProposal}
use algo_trader.Risk.Settings.{RiskSettings}
use algo_trader.Approvals.{auto_reviewer}
use algo_trader.Approvals.Invariant.{Kept, IsAdmitted, run_kept}
use algo_trader.Approvals.Requests.{Request, run, no_proposals}

pub automatic_reviewer :
    (paper_only : Bool) (reviewer : String)
    → (paper_only && not (str_eq reviewer auto_reviewer)) ≡ false
    → paper_only ≡ true
    → some reviewer ≡ some auto_reviewer
automatic_reviewer paper_only reviewer free tagged =
    let same : reviewer ≡ auto_reviewer =
      ground (arith, free, tagged, eq_iff reviewer auto_reviewer) in
    ap some same

module _ {F : Type 0} where
  abbrev pub IsAutomatic : TradeProposal F → Type 0
  IsAutomatic p =
      p.status ≡ ApprovalStatus.approved
      → p.order.metadata.paper_only ≡ true
      → p.approved_by ≡ some auto_reviewer

  Kept-IsAutomatic : Kept IsAutomatic
  Kept-IsAutomatic = record {
    on_time = λ t p known. known;
    on_expire = λ t p still known approved. cc;
    on_approve = λ t d p pending free known approved.
        automatic_reviewer p.order.metadata.paper_only d.reviewer free;
    on_reject = λ t d p still known approved. cc;
    on_execute = λ t x p known approved. cc;
  }

module _ {F : Type 0} ⦃n : Float F⦄ (s : RiskSettings F) (expiry_minutes : ℕ)
    (rs : List (Request F)) where
  -- Whatever calls are made of the service from an empty store, a stored proposal that is approved
  -- and tagged paper-only was approved by the unattended path's reviewer.
  pub run-IsAutomatic : All IsAutomatic (run s expiry_minutes rs no_proposals).proposals
  run-IsAutomatic =
      run_kept s expiry_minutes IsAutomatic Kept-IsAutomatic (λ e r o admitted approved. cc) rs
        no_proposals tt

  Kept-IsAdmitted : Kept (λ p. IsAdmitted s p.order)
  Kept-IsAdmitted = record {
    on_time = λ t p known. known;
    on_expire = λ t p still known. known;
    on_approve = λ t d p pending free known. known;
    on_reject = λ t d p still known. known;
    on_execute = λ t x p known. known;
  }

  -- Whatever calls are made of the service from an empty store, the order of every stored proposal
  -- passed the risk gate in some account with some verdict of the live room.
  pub run-IsAdmitted :
      All (λ p. IsAdmitted s p.order) (run s expiry_minutes rs no_proposals).proposals
  run-IsAdmitted =
      run_kept s expiry_minutes _ Kept-IsAdmitted (λ e r o admitted. admitted) rs no_proposals tt
