-- ===== src/Approvals.antt =====
-- app/approvals/service.py: proposals that wait for an approval. The clock's readings, the new id, the
-- account's risk context and the verdict of the live room are arguments.
pub mod Store
pub mod Creation
pub mod Requests
pub mod Rows
pub mod Calls
pub mod Invariant
pub mod Provenance
pub mod Decisions
pub mod Settled
pub mod Tests
use algo_trader.Prelude.{
  ℕ, String, Bool, true, false, not, ◌&&◌, Option, none, some, List, [], ◌∷◌, ◌++◌, str_eq, ltb,
  leb, if◌then◌else◌,
}
use algo_trader.Result.{Result, ok, err}
use algo_trader.Text.{upper}
use algo_trader.Models.{
  TradeOrder, Signal, ApprovalStatus, TradeProposalCreate, TradeProposal, ApprovalDecisionRequest,
}
use algo_trader.Broker.Resolver.{SupportedInstrument, ResolveError}
use algo_trader.Risk.Context.{Reason, RoomAuthority}
use algo_trader.Approvals.Store.{get, update, list}

abbrev pub auto_reviewer : String
auto_reviewer = "paper_auto"

-- What the service raises.
pub data ProposalError (F : Type 0) : Type 0 where
  unsupported : ResolveError → ProposalError F
  refused : List (Reason F) → ProposalError F
  id_taken : ℕ → ProposalError F
  not_found : ℕ → ProposalError F
  not_pending : ProposalError F
  automatic_only : ProposalError F
  not_rejectable : ProposalError F

pub data Log (F : Type 0) : Type 0 where
  proposal_created : ℕ → String → F → F → RoomAuthority → Log F
  proposal_approved : ℕ → String → String → Log F
  proposal_rejected : ℕ → String → String → Log F
  proposal_executed : ℕ → ℕ → Log F
  proposal_expired : ℕ → Log F

pub record World (F : Type 0) : Type 0 where
  pub proposals : List (TradeProposal F)
  pub signals : List (Signal F)
  pub logs : List (Log F)

-- The readings of the clock in one call, in order: against the expiry, for the row that expires, for
-- the row that the call writes.
pub record Clock : Type 0 where
  pub checked : ℕ
  pub expired : ℕ
  pub stamped : ℕ

abbrev pub is_open : ApprovalStatus → Bool
is_open ApprovalStatus.pending = true
is_open ApprovalStatus.approved = true
is_open ApprovalStatus.rejected = false
is_open ApprovalStatus.expired = false
is_open ApprovalStatus.executed = false

abbrev pub is_pending : ApprovalStatus → Bool
is_pending ApprovalStatus.pending = true
is_pending _ = false

module _ {F : Type 0} where
  -- `self.proposals.update(proposal)` and the log row
  abbrev pub save : TradeProposal F → Log F → World F → World F
  save p l w = record w { proposals = update p w.proposals; logs = w.logs ++ (l ∷ []) }

  abbrev pub expire : ℕ → TradeProposal F → TradeProposal F
  expire now p = record p { status = ApprovalStatus.expired; updated_at = now }

  unfoldable pub is_stale : ℕ → TradeProposal F → Bool
  is_stale now p = is_open p.status && leb p.expires_at now

  unfoldable pub expire_if_needed : Clock → TradeProposal F → World F → TradeProposal F × World F
  unfolding is_stale
  expire_if_needed c p w =
      if is_stale c.checked p
      then (expire c.expired p, save (expire c.expired p) (proposal_expired p.id) w)
      else (p, w)

  unfoldable pub get_proposal :
      Clock → ℕ → World F → Result (ProposalError F) (TradeProposal F) × World F
  unfolding expire_if_needed
  get_proposal c k w = elim (get k w.proposals) [
    | none ↦ (err (not_found k), w)
    | some p ↦ let (q, w') = expire_if_needed c p w in (ok q, w')
  ]

  unfoldable pub expire_each :
      (ℕ → Clock) → List (TradeProposal F) → World F → List (TradeProposal F) × World F
  unfolding expire_if_needed
  expire_each clock [] w = ([], w)
  expire_each clock (p ∷ rows) w =
      let (q, w1) = expire_if_needed (clock p.id) p w in
      let (qs, w2) = expire_each clock rows w1 in (q ∷ qs, w2)

  -- `clock` gives the readings at each row.
  unfoldable pub list_proposals :
      (ℕ → Clock) → Option ApprovalStatus → World F → List (TradeProposal F) × World F
  unfolding expire_each
  list_proposals clock status w = expire_each clock (list status w.proposals) w

  abbrev pub approve : ℕ → ApprovalDecisionRequest → TradeProposal F → TradeProposal F
  approve now d p = record p {
    status = ApprovalStatus.approved;
    approved_by = some d.reviewer;
    decision_notes = d.notes;
    updated_at = now;
  }

  abbrev pub reject : ℕ → ApprovalDecisionRequest → TradeProposal F → TradeProposal F
  reject now d p = record p {
    status = ApprovalStatus.rejected;
    approved_by = some d.reviewer;
    decision_notes = d.notes;
    updated_at = now;
  }

  abbrev pub execute : ℕ → ℕ → TradeProposal F → TradeProposal F
  execute now execution p = record p {
    status = ApprovalStatus.executed;
    execution_id = some execution;
    executed_at = some now;
    updated_at = now;
  }

  -- What `approve_proposal` does with the proposal that `get_proposal` returned.
  unfoldable pub decide_approval :
      Clock
      → ApprovalDecisionRequest
      → TradeProposal F
      → World F
      → Result (ProposalError F) (TradeProposal F) × World F
  decide_approval c d p w =
      if not (is_pending p.status)
      then (err not_pending, w)
      else if p.order.metadata.paper_only && not (str_eq d.reviewer auto_reviewer)
      then (err automatic_only, w)
      else (
        ok (approve c.stamped d p),
        save (approve c.stamped d p) (proposal_approved p.id d.reviewer d.notes) w,
      )

  unfoldable pub decide_rejection :
      Clock
      → ApprovalDecisionRequest
      → TradeProposal F
      → World F
      → Result (ProposalError F) (TradeProposal F) × World F
  decide_rejection c d p w = if not (is_open p.status) then (err not_rejectable, w) else (
    ok (reject c.stamped d p),
    save (reject c.stamped d p) (proposal_rejected p.id d.reviewer d.notes) w,
  )

  unfoldable pub record_execution :
      Clock → ℕ → TradeProposal F → World F → Result (ProposalError F) (TradeProposal F) × World F
  record_execution c execution p w = (
    ok (execute c.stamped execution p),
    save (execute c.stamped execution p) (proposal_executed p.id execution) w,
  )

  abbrev pub followed_by :
      (TradeProposal F → World F → Result (ProposalError F) (TradeProposal F) × World F)
      → Result (ProposalError F) (TradeProposal F) × World F
      → Result (ProposalError F) (TradeProposal F) × World F
  followed_by rest (err e, w) = (err e, w)
  followed_by rest (ok p, w) = rest p w

  -- `proposal = self.get_proposal(proposal_id)`, then the rest of the method.
  abbrev pub with_proposal :
      Clock
      → ℕ
      → (TradeProposal F → World F → Result (ProposalError F) (TradeProposal F) × World F)
      → World F
      → Result (ProposalError F) (TradeProposal F) × World F
  with_proposal c k rest w = followed_by rest (get_proposal c k w)

  unfoldable pub approve_proposal :
      Clock
      → ℕ
      → ApprovalDecisionRequest
      → World F
      → Result (ProposalError F) (TradeProposal F) × World F
  unfolding get_proposal decide_approval
  approve_proposal c k d = with_proposal c k (decide_approval c d)

  unfoldable pub reject_proposal :
      Clock
      → ℕ
      → ApprovalDecisionRequest
      → World F
      → Result (ProposalError F) (TradeProposal F) × World F
  unfolding get_proposal decide_rejection
  reject_proposal c k d = with_proposal c k (decide_rejection c d)

  unfoldable pub mark_executed :
      Clock → ℕ → ℕ → World F → Result (ProposalError F) (TradeProposal F) × World F
  unfolding get_proposal record_execution
  mark_executed c k execution = with_proposal c k (record_execution c execution)

  unfoldable pub to_order : TradeProposalCreate F → TradeOrder F
  unfolding upper
  to_order r = record {
    symbol = upper r.symbol;
    side = r.side;
    amount_usd = r.amount_usd;
    leverage = r.leverage;
    proposed_price = r.proposed_price;
    stop_loss = r.stop_loss;
    take_profit = r.take_profit;
    asset_class = r.asset_class;
    broker_symbol = none;
    strategy_name = r.strategy_name;
    rationale = r.rationale;
    metadata = r.metadata;
  }

  -- `_prepare_order`, with the instrument that the symbol resolves to
  unfoldable pub prepare_order : SupportedInstrument → TradeOrder F → TradeOrder F
  prepare_order i o = record o {
    symbol = i.symbol;
    broker_symbol = some i.broker_symbol;
    asset_class = i.asset_class;
    leverage = if ltb o.leverage 1 then 1 else o.leverage;
  }
