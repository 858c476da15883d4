-- ===== src/Approvals/Tests.antt =====
-- Runs of app/approvals/service.py: one paper-only proposal through its calls.
use algo_trader.Prelude.{
  ℕ, ◌+◌, ◌*◌, String, ◌≡◌, refl, ◌↔◌, true, Option, none, some, List, [], ◌∷◌, All,
}
use algo_trader.Result.{ok, err}
use algo_trader.Float.Micros.{Micros, micros_float}
use algo_trader.Models.{
  OrderSide, AssetClass, ApprovalStatus, TradeProposalCreate, TradeProposal,
  ApprovalDecisionRequest,
}
use algo_trader.Broker.Resolver.{resolve}
use algo_trader.Risk.Guardrails.Tests.{usd, settings, plain_metadata, order, context}
use algo_trader.Risk.Guardrails.{
  validate_order, risk_cap, leverage_reasons, count_reasons, loss_reasons, drawdown_reasons,
  exposure_reasons, stop_reasons, mode_reasons,
}
use algo_trader.Risk.Sectors.{correlation_bucket_for_symbol}
use algo_trader.Risk.Shorting.{short_blockers}
use algo_trader.Risk.Heat.{fits_within_heat}
use algo_trader.Risk.Rules.{estimate_risk_amount, leverage_cap_for_asset}
use algo_trader.Approvals.{
  World, Clock, auto_reviewer, approve_proposal, automatic_only, not_pending,
}
use algo_trader.Approvals.Store.{get, update}
use algo_trader.Approvals.Creation.{Surroundings, create_proposal}
use algo_trader.Approvals.Requests.{
  Request, creation, listing, approval, rejection, no_proposals, run,
}
use algo_trader.Approvals.Invariant.{IsAdmitted}
use algo_trader.Approvals.Provenance.{IsAutomatic, run-IsAutomatic, run-IsAdmitted}
use algo_trader.Approvals.Decisions.{MayApprove, approve_proposal-ok_iff}
use algo_trader.Approvals.Settled.{run-settled}

abbrev pub request : TradeProposalCreate Micros
request = record {
  symbol = "nvda";
  side = OrderSide.buy;
  amount_usd = usd 500;
  leverage = 1;
  proposed_price = usd 100;
  stop_loss = some (usd 95);
  take_profit = some (usd 110);
  strategy_name = none;
  rationale = "";
  notes = "";
  asset_class = AssetClass.unknown;
  signal = none;
  metadata = record plain_metadata { paper_only = true };
}

abbrev pub surroundings : Surroundings Micros
surroundings = record {
  new_id = 7;
  created = 1_000;
  updated = 1_000;
  now = 1_000;
  context = context;
  room = λ o signal. none;
}

abbrev pub clock : ℕ → Clock
clock t = record { checked = t; expired = t; stamped = t }

abbrev by : String → ApprovalDecisionRequest
by reviewer = record { reviewer = reviewer; notes = "" }

-- The proposal as it is stored, with a status and a reviewer.
abbrev pub stored : ApprovalStatus → Option String → ℕ → TradeProposal Micros
stored status reviewer t = record {
  id = 7;
  status = status;
  order = record order {
    broker_symbol = some "NVDA";
    metadata = record plain_metadata { paper_only = true };
  };
  signal = none;
  notes = "";
  decision_notes = "";
  approved_by = reviewer;
  execution_id = none;
  created_at = 1_000;
  updated_at = t;
  expires_at = 1_000 + 240 * 60_000_000;
  executed_at = none;
}

abbrev pub holding : TradeProposal Micros → World Micros
holding p = record { proposals = p ∷ []; signals = []; logs = [] }

is_created :
    (create_proposal settings 240 surroundings request no_proposals).0
    ≡ ok (stored ApprovalStatus.pending none 1_000)
unfolding create_proposal validate_order resolve leverage_reasons leverage_cap_for_asset
    count_reasons correlation_bucket_for_symbol loss_reasons drawdown_reasons exposure_reasons
    short_blockers stop_reasons risk_cap estimate_risk_amount fits_within_heat mode_reasons
is_created = refl

hand_refused :
    (approve_proposal
      (clock 2_000)
      7
      (by "human")
      (holding (stored ApprovalStatus.pending none 1_000))).0
    ≡ err automatic_only
unfolding approve_proposal get
hand_refused = refl

-- A stale proposal is refused, and is stored as expired.
stale_refused :
    let (r, w) =
      approve_proposal
        (clock 90_000_000_000)
        7
        (by auto_reviewer)
        (holding (stored ApprovalStatus.pending none 1_000)) in
    (r ≡ err not_pending) × (w.proposals ≡ stored ApprovalStatus.expired none 90_000_000_000 ∷ [])
unfolding approve_proposal get update
stale_refused = (refl, refl)

approve_proposal-ok_iff_example :
    ((approve_proposal
        (clock 2_000)
        7
        (by auto_reviewer)
        (holding (stored ApprovalStatus.pending none 1_000))).0
      ≡ ok (stored ApprovalStatus.approved (some auto_reviewer) 2_000))
    ↔ MayApprove
        (clock 2_000)
        7
        (by auto_reviewer)
        (holding (stored ApprovalStatus.pending none 1_000))
        (stored ApprovalStatus.approved (some auto_reviewer) 2_000)
approve_proposal-ok_iff_example =
    approve_proposal-ok_iff (clock 2_000) 7 (by auto_reviewer)
      (holding (stored ApprovalStatus.pending none 1_000))
      (stored ApprovalStatus.approved (some auto_reviewer) 2_000)

abbrev calls : List (Request Micros)
calls =
    creation surroundings request
    ∷ approval (clock 2_000) 7 (by "human")
    ∷ listing clock none
    ∷ approval (clock 2_000) 7 (by auto_reviewer)
    ∷ []

run-IsAutomatic_example : All IsAutomatic (run settings 240 calls no_proposals).proposals
run-IsAutomatic_example = run-IsAutomatic settings 240 calls

run-IsAdmitted_example :
    All (λ p. IsAdmitted settings p.order) (run settings 240 calls no_proposals).proposals
run-IsAdmitted_example = run-IsAdmitted settings 240 calls

abbrev later_calls : List (Request Micros)
later_calls =
    approval (clock 2_000) 7 (by auto_reviewer)
    ∷ rejection (clock 3_000) 7 (by "human")
    ∷ creation surroundings request
    ∷ []

run-settled_example :
    get 7
      (run settings 240 later_calls
        (holding (stored ApprovalStatus.rejected (some "human") 2_000))).proposals
    ≡ some (stored ApprovalStatus.rejected (some "human") 2_000)
unfolding get
run-settled_example =
    run-settled settings 240 7 (stored ApprovalStatus.rejected (some "human") 2_000) later_calls
      (holding (stored ApprovalStatus.rejected (some "human") 2_000)) refl
      (refl, (refl, (refl, tt))) refl
