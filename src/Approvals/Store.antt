-- ===== src/Approvals/Store.antt =====
-- app/storage/repositories.py: `ProposalRepository` over the rows of the table approvals, in the
-- order of insertion.
use algo_trader.Prelude.{
  ℕ, Bool, true, false, Option, none, some, is_some, List, [], ◌∷◌, ◌++◌, ltb, ◌==◌, if◌then◌else◌,
}
use algo_trader.Models.{ApprovalStatus, TradeProposal}

abbrev pub same_status : ApprovalStatus → ApprovalStatus → Bool
same_status ApprovalStatus.pending ApprovalStatus.pending = true
same_status ApprovalStatus.approved ApprovalStatus.approved = true
same_status ApprovalStatus.rejected ApprovalStatus.rejected = true
same_status ApprovalStatus.expired ApprovalStatus.expired = true
same_status ApprovalStatus.executed ApprovalStatus.executed = true
same_status _ _ = false

module _ {F : Type 0} where
  -- `SELECT ... WHERE id = ?`
  unfoldable pub get : ℕ → List (TradeProposal F) → Option (TradeProposal F)
  get k [] = none
  get k (p ∷ rows) = if k == p.id then some p else get k rows

  -- `INSERT`: the primary key refuses an id that is there.
  unfoldable pub create : TradeProposal F → List (TradeProposal F) → Option (List (TradeProposal F))
  unfolding get
  create p rows = if is_some (get p.id rows) then none else some (rows ++ (p ∷ []))

  -- `UPDATE ... WHERE id = ?` leaves `created_at`.
  unfoldable pub update : TradeProposal F → List (TradeProposal F) → List (TradeProposal F)
  update q [] = []
  update q (p ∷ rows) =
      (if q.id == p.id then record q { created_at = p.created_at } else p) ∷ update q rows

  unfoldable pub insert_newest : TradeProposal F → List (TradeProposal F) → List (TradeProposal F)
  insert_newest p [] = p ∷ []
  insert_newest p (q ∷ rows) =
      if ltb p.created_at q.created_at then q ∷ insert_newest p rows else p ∷ q ∷ rows

  unfoldable pub newest_first : List (TradeProposal F) → List (TradeProposal F)
  unfolding insert_newest
  newest_first [] = []
  newest_first (p ∷ rows) = insert_newest p (newest_first rows)

  unfoldable pub having : Option ApprovalStatus → List (TradeProposal F) → List (TradeProposal F)
  having none rows = rows
  having (some s) [] = []
  having (some s) (p ∷ rows) =
      if same_status p.status s then p ∷ having (some s) rows else having (some s) rows

  -- `SELECT ... ORDER BY created_at DESC`; rows created at one time stay as they were inserted.
  unfoldable pub list : Option ApprovalStatus → List (TradeProposal F) → List (TradeProposal F)
  unfolding newest_first having
  list status rows = newest_first (having status rows)
