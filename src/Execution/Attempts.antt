-- ===== src/Execution/Attempts.antt =====
-- app/storage/repositories.py: `ExecutionRepository` over the rows of the table executions, in the
-- order of insertion.
use algo_trader.Prelude.{
  ℕ, ◌+◌, String, Bool, false, Option, none, some, List, [], ◌∷◌, ◌++◌, str_eq, ltb, leb, ◌==◌,
  if◌then◌else◌, or_else,
}
use algo_trader.Text.{strip, is_nonempty}
use algo_trader.Models.{TradeOrder}
use algo_trader.Execution.{ExecutionRecord}

unfoldable pub same_text : String → Option String → Bool
same_text t none = false
same_text t (some u) = str_eq t u

module _ {F : Type 0} where
  -- `str(request_payload.get("strategy_name") or "").strip() or None`
  requested_strategy : Option (TradeOrder F × String) → Option String
  requested_strategy none = none
  requested_strategy (some (o, c)) =
      let name = strip (or_else o.strategy_name "") in if is_nonempty name then some name else none

  -- `execution.strategy_name or ...`
  unfoldable pub attributed : Option String → Option (TradeOrder F × String) → Option String
  unfolding requested_strategy
  attributed none request = requested_strategy request
  attributed (some name) request =
      if is_nonempty name then some name else requested_strategy request

  abbrev pub attribute : ExecutionRecord F → ExecutionRecord F
  attribute x = record x { strategy_name = attributed x.strategy_name x.request }

  -- `INSERT`
  unfoldable pub create : ExecutionRecord F → List (ExecutionRecord F) → List (ExecutionRecord F)
  unfolding attributed
  create x rows = rows ++ (attribute x ∷ [])

  unfoldable pub get : ℕ → List (ExecutionRecord F) → Option (ExecutionRecord F)
  get k [] = none
  get k (x ∷ rows) = if k == x.id then some x else get k rows

  unfoldable pub get_by_broker_order_id :
      String → List (ExecutionRecord F) → Option (ExecutionRecord F)
  unfolding same_text
  get_by_broker_order_id t [] = none
  get_by_broker_order_id t (x ∷ rows) =
      if same_text t x.broker_order_id then some x else get_by_broker_order_id t rows

  newer_of : ExecutionRecord F → Option (ExecutionRecord F) → ExecutionRecord F
  newer_of x none = x
  newer_of x (some y) = if ltb x.created_at y.created_at then y else x

  -- `ORDER BY created_at DESC LIMIT 1`; of rows created at one time, the first inserted.
  unfoldable pub get_latest_by_proposal_id :
      ℕ → List (ExecutionRecord F) → Option (ExecutionRecord F)
  unfolding newer_of
  get_latest_by_proposal_id k [] = none
  get_latest_by_proposal_id k (x ∷ rows) =
      let rest = get_latest_by_proposal_id k rows in
      if k == x.proposal_id then some (newer_of x rest) else rest

  -- The columns that the `UPDATE` sets.
  unfoldable pub update : ExecutionRecord F → List (ExecutionRecord F) → List (ExecutionRecord F)
  unfolding attributed
  update y [] = []
  update y (x ∷ rows) =
      (if y.id == x.id
        then record x {
          status = y.status;
          broker_order_id = y.broker_order_id;
          strategy_name = attributed y.strategy_name y.request;
          request = y.request;
          response = y.response;
          error_message = y.error_message;
          realized_pnl_usd = y.realized_pnl_usd;
          updated_at = y.updated_at;
        }
        else x)
      ∷ update y rows

  unfoldable pub count_since : ℕ → List (ExecutionRecord F) → ℕ
  count_since since [] = 0
  count_since since (x ∷ rows) = (if leb since x.created_at then 1 else 0) + count_since since rows
