-- ===== src/Approvals/Creation.antt =====
-- app/approvals/service.py: `create_proposal`.
use algo_trader.Prelude.{
  ℕ, ◌+◌, ◌*◌, String, not, Option, none, some, List, [], ◌∷◌, ◌++◌, if◌then◌else◌,
}
use algo_trader.Result.{Result, ok, err}
use algo_trader.Float.{Float}
use algo_trader.Models.{TradeOrder, Signal, ApprovalStatus, TradeProposalCreate, TradeProposal}
use algo_trader.Broker.Resolver.{resolve}
use algo_trader.Risk.Settings.{RiskSettings}
use algo_trader.Risk.Context.{RiskContext, RiskValidationResult}
use algo_trader.Risk.Guardrails.{validate_order}
use algo_trader.Approvals.{
  ProposalError, unsupported, refused, id_taken, proposal_created, World, to_order, prepare_order,
}
use algo_trader.Approvals.Store.{create}

-- What the call is given besides its request: the new id, the readings of the clock for the row and
-- for its expiry, the risk context, and the verdict of the live room on an order.
pub record Surroundings (F : Type 0) : Type 0 where
  pub new_id : ℕ
  pub created : ℕ
  pub updated : ℕ
  pub now : ℕ
  pub context : RiskContext F
  pub room : TradeOrder F → Option (Signal F) → Option (List String)

abbrev add_signal : {F : Type 0} → Option (Signal F) → List (Signal F) → List (Signal F)
add_signal none signals = signals
add_signal (some s) signals = signals ++ (s ∷ [])

module _ {F : Type 0} ⦃n : Float F⦄ where
  abbrev pub new_proposal :
      ℕ → Surroundings F → TradeProposalCreate F → TradeOrder F → TradeProposal F
  new_proposal expiry_minutes e r o = record {
    id = e.new_id;
    status = ApprovalStatus.pending;
    order = o;
    signal = r.signal;
    notes = r.notes;
    decision_notes = "";
    approved_by = none;
    execution_id = none;
    created_at = e.created;
    updated_at = e.updated;
    expires_at = e.now + expiry_minutes * 60_000_000;
    executed_at = none;
  }

  -- What follows the `INSERT`: the log row, if it does not raise.
  unfoldable pub inserted :
      ℕ
      → Surroundings F
      → TradeProposalCreate F
      → TradeOrder F
      → RiskValidationResult F
      → World F
      → Option (List (TradeProposal F))
      → Result (ProposalError F) (TradeProposal F) × World F
  inserted expiry_minutes e r o risk w none = (err (id_taken e.new_id), w)
  inserted expiry_minutes e r o risk w (some rows) = (
    ok (new_proposal expiry_minutes e r o),
    record w {
      proposals = rows;
      logs =
          w.logs
          ++ (proposal_created e.new_id o.symbol risk.risk_pct_of_balance risk.risk_amount_usd
                risk.room_authority
              ∷ []);
    },
  )

  -- The signal is stored first, in a transaction of its own.
  unfoldable pub store_proposal :
      ℕ
      → Surroundings F
      → TradeProposalCreate F
      → TradeOrder F
      → RiskValidationResult F
      → World F
      → Result (ProposalError F) (TradeProposal F) × World F
  unfolding create inserted
  store_proposal expiry_minutes e r o risk w =
      if not risk.passed
      then (err (refused risk.reasons), w)
      else inserted expiry_minutes e r o risk (record w { signals = add_signal r.signal w.signals })
          (create (new_proposal expiry_minutes e r o) w.proposals)

  unfoldable pub create_proposal :
      RiskSettings F
      → ℕ
      → Surroundings F
      → TradeProposalCreate F
      → World F
      → Result (ProposalError F) (TradeProposal F) × World F
  unfolding store_proposal to_order prepare_order
  create_proposal s expiry_minutes e r w = elim (resolve s.instruments (to_order r).symbol) [
    | err x ↦ (err (unsupported x), w)
    | ok i ↦
        let o = prepare_order i (to_order r) in
        store_proposal expiry_minutes e r o (validate_order s o e.context (e.room o r.signal)) w
  ]
