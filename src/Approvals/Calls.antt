-- ===== src/Approvals/Calls.antt =====
-- app/approvals/service.py: the methods that start with `get_proposal`, by what that found.
use algo_trader.Prelude.{ℕ, ◌≡◌, ap, none, some}
use algo_trader.Result.{Result, ok, err}
use algo_trader.Float.{Float}
use algo_trader.Models.{TradeProposalCreate, TradeProposal}
use algo_trader.Broker.Resolver.{SupportedInstrument, ResolveError, resolve}
use algo_trader.Risk.Settings.{RiskSettings}
use algo_trader.Risk.Guardrails.{validate_order}
use algo_trader.Approvals.{
  ProposalError, unsupported, not_found, World, Clock, expire_if_needed, followed_by, get_proposal,
  with_proposal, to_order, prepare_order,
}
use algo_trader.Approvals.Store.{get}
use algo_trader.Approvals.Creation.{Surroundings, store_proposal, create_proposal}

module _ {F : Type 0} (c : Clock) (k : ℕ) (w : World F) where
  pub get_proposal-none : get k w.proposals ≡ none → get_proposal c k w ≡ (err (not_found k), w)
  unfolding get_proposal
  get_proposal-none e = rw (e, get_proposal)

  pub get_proposal-some :
      (p : TradeProposal F)
      → get k w.proposals ≡ some p
      → get_proposal c k w ≡ (ok (expire_if_needed c p w).0, (expire_if_needed c p w).1)
  unfolding get_proposal
  get_proposal-some p e = rw (e, get_proposal)

  module _
      (rest : TradeProposal F
        → World F
        → Result (ProposalError F) (TradeProposal F) × World F) where
    pub with_proposal-none :
        get k w.proposals ≡ none → with_proposal c k rest w ≡ (err (not_found k), w)
    with_proposal-none e = ap (followed_by rest) (get_proposal-none e)

    pub with_proposal-some :
        (p : TradeProposal F)
        → get k w.proposals ≡ some p
        → with_proposal c k rest w ≡ rest (expire_if_needed c p w).0 (expire_if_needed c p w).1
    with_proposal-some p e = ap (followed_by rest) (get_proposal-some p e)

module _ {F : Type 0} ⦃n : Float F⦄ (s : RiskSettings F) (expiry_minutes : ℕ) (e : Surroundings F)
    (r : TradeProposalCreate F) (w : World F) where
  pub create_proposal_unsupported :
      (x : ResolveError)
      → resolve s.instruments (to_order r).symbol ≡ err x
      → create_proposal s expiry_minutes e r w ≡ (err (unsupported x), w)
  unfolding create_proposal
  create_proposal_unsupported x h = rw (h, create_proposal)

  pub create_proposal_resolved :
      (i : SupportedInstrument)
      → resolve s.instruments (to_order r).symbol ≡ ok i
      → let o = prepare_order i (to_order r) in
        create_proposal s expiry_minutes e r w
        ≡ store_proposal expiry_minutes e r o (validate_order s o e.context (e.room o r.signal)) w
  unfolding create_proposal
  create_proposal_resolved i h = rw (h, create_proposal)
