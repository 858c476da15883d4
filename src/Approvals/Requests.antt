-- ===== src/Approvals/Requests.antt =====
-- app/approvals/service.py: sequences of calls of the service, over the store.
use algo_trader.Prelude.{ℕ, Option, List, [], ◌∷◌}
use algo_trader.Float.{Float}
use algo_trader.Models.{ApprovalStatus, TradeProposalCreate, ApprovalDecisionRequest}
use algo_trader.Risk.Settings.{RiskSettings}
use algo_trader.Approvals.{
  World, Clock, get_proposal, list_proposals, approve_proposal, reject_proposal, mark_executed,
}
use algo_trader.Approvals.Creation.{Surroundings, create_proposal}

pub data Request (F : Type 0) : Type 0 where
  creation : Surroundings F → TradeProposalCreate F → Request F
  reading : Clock → ℕ → Request F
  listing : (ℕ → Clock) → Option ApprovalStatus → Request F
  approval : Clock → ℕ → ApprovalDecisionRequest → Request F
  rejection : Clock → ℕ → ApprovalDecisionRequest → Request F
  execution : Clock → ℕ → ℕ → Request F

abbrev pub no_proposals : {F : Type 0} → World F
no_proposals = record { proposals = []; signals = []; logs = [] }

module _ {F : Type 0} ⦃n : Float F⦄ (s : RiskSettings F) (expiry_minutes : ℕ) where
  -- The state after one call, whether it returns or raises.
  unfoldable pub step : Request F → World F → World F
  step (creation e r) w = (create_proposal s expiry_minutes e r w).1
  step (reading c k) w = (get_proposal c k w).1
  step (listing clock status) w = (list_proposals clock status w).1
  step (approval c k d) w = (approve_proposal c k d w).1
  step (rejection c k d) w = (reject_proposal c k d w).1
  step (execution c k x) w = (mark_executed c k x w).1

  unfoldable pub run : List (Request F) → World F → World F
  unfolding step
  run [] w = w
  run (r ∷ rs) w = run rs (step r w)
