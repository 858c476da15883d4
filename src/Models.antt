-- ===== src/Models.antt =====
-- The pydantic models of app/models that the gates and the workflow share. Ids, times, payloads and
-- texts that are only stored are numbers or texts; the free-form `metadata` is the keys that are read.
use algo_trader.Prelude.{ℕ, String, Bool, Option}

pub data OrderSide : Type 0 where
  buy sell : OrderSide

pub data AssetClass : Type 0 where
  equity gold crypto unknown : AssetClass

-- The keys of `order.metadata` that the modelled code reads.
pub record Metadata (F : Type 0) : Type 0 where
  pub opens_short : Bool
  pub easy_to_borrow : Bool
  pub borrow_cost_annual_pct : Option F
  pub margin_requirement_pct : Option F
  pub sector : String
  pub timeframe : Option String
  pub paper_only : Bool

pub record TradeOrder (F : Type 0) : Type 0 where
  pub symbol : String
  pub side : OrderSide
  pub amount_usd : F
  pub leverage : ℕ
  pub proposed_price : F
  pub stop_loss : Option F
  pub take_profit : Option F
  pub asset_class : AssetClass
  pub broker_symbol : Option String
  pub strategy_name : Option String
  pub rationale : String
  pub metadata : Metadata F

-- What the modelled code reads of a signal.
pub record Signal (F : Type 0) : Type 0 where
  pub id : ℕ
  pub symbol : String
  pub action : OrderSide
  pub strategy_name : String
  pub rationale : String
  pub price : Option F
  pub stop_loss : Option F
  pub take_profit : Option F
  pub timeframe : Option String

pub data ApprovalStatus : Type 0 where
  pending approved rejected expired executed : ApprovalStatus

pub record TradeProposalCreate (F : Type 0) : Type 0 where
  pub symbol : String
  pub side : OrderSide
  pub amount_usd : F
  pub leverage : ℕ
  pub proposed_price : F
  pub stop_loss : Option F
  pub take_profit : Option F
  pub strategy_name : Option String
  pub rationale : String
  pub notes : String
  pub asset_class : AssetClass
  pub signal : Option (Signal F)
  pub metadata : Metadata F

-- Times are microseconds since the epoch.
pub record TradeProposal (F : Type 0) : Type 0 where
  pub id : ℕ
  pub status : ApprovalStatus
  pub order : TradeOrder F
  pub signal : Option (Signal F)
  pub notes : String
  pub decision_notes : String
  pub approved_by : Option String
  pub execution_id : Option ℕ
  pub created_at : ℕ
  pub updated_at : ℕ
  pub expires_at : ℕ
  pub executed_at : Option ℕ

pub record ApprovalDecisionRequest : Type 0 where
  pub reviewer : String
  pub notes : String
