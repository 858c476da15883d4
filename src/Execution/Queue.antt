-- ===== src/Execution/Queue.antt =====
-- app/storage/repositories.py: `ExecutionQueueRepository` over the rows of the table execution_queue,
-- in the order of insertion, with the unique index of app/storage/db.py on the symbol of open rows.
pub mod Claims
pub mod Unique
use algo_trader.Prelude.{
  ℕ, zero, suc, String, Bool, true, false, not, ◌&&◌, ◌||◌, Option, none, some, List, [], ◌∷◌, ◌++◌,
  str_eq, ltb, ◌==◌, if◌then◌else◌, any,
}
use algo_trader.Result.{Result, ok, err}
use algo_trader.Text.{upper}
use algo_trader.Execution.{QueueStatus, QueueRecord, is_open_item}

abbrev pub same_status : QueueStatus → QueueStatus → Bool
same_status QueueStatus.queued QueueStatus.queued = true
same_status QueueStatus.processing QueueStatus.processing = true
same_status QueueStatus.executed QueueStatus.executed = true
same_status QueueStatus.cancelled QueueStatus.cancelled = true
same_status QueueStatus.blocked QueueStatus.blocked = true
same_status QueueStatus.failed QueueStatus.failed = true
same_status _ _ = false

-- `status = 'queued' OR status = 'blocked' OR (status = 'processing' AND updated_at < ?)`
unfoldable pub is_claimable : ℕ → QueueStatus → ℕ → Bool
is_claimable stale_before QueueStatus.queued at_time = true
is_claimable stale_before QueueStatus.blocked at_time = true
is_claimable stale_before QueueStatus.processing at_time = ltb at_time stale_before
is_claimable stale_before QueueStatus.executed at_time = false
is_claimable stale_before QueueStatus.cancelled at_time = false
is_claimable stale_before QueueStatus.failed at_time = false

module _ {F : Type 0} where
  abbrev pub holds_symbol : String → QueueRecord F → Bool
  holds_symbol symbol r = is_open_item r.status && str_eq symbol r.symbol

  -- The unique index refuses an open row under a symbol that another open row has. It is taken to be
  -- there: app/storage/pg_upgrades.py logs a failure to make it on Postgres, and goes on.
  unfoldable pub violates : ℕ → String → List (QueueRecord F) → Bool
  violates k symbol rows = any (λ r. not (k == r.id) && holds_symbol symbol r) rows

  -- `INSERT`: the index and the primary key refuse
  unfoldable pub create :
      QueueRecord F → List (QueueRecord F) → Result String (List (QueueRecord F))
  unfolding violates
  create r rows =
      if any (λ q. r.id == q.id) rows || is_open_item r.status && violates r.id r.symbol rows
      then err r.symbol
      else ok (rows ++ (r ∷ []))

  unfoldable pub get : ℕ → List (QueueRecord F) → Option (QueueRecord F)
  get k [] = none
  get k (r ∷ rows) = if k == r.id then some r else get k rows

  -- The columns that the `UPDATE` of `update` sets.
  abbrev pub written : QueueRecord F → QueueRecord F → QueueRecord F
  written new old = record old {
    status = new.status;
    ready_for_execution = new.ready_for_execution;
    latest_quote_price = new.latest_quote_price;
    latest_quote_timestamp = new.latest_quote_timestamp;
    validation_reason = new.validation_reason;
    order = new.order;
    signal = new.signal;
    execution_id = new.execution_id;
    updated_at = new.updated_at;
    executed_at = new.executed_at;
  }

  unfoldable pub update : QueueRecord F → List (QueueRecord F) → List (QueueRecord F)
  update q [] = []
  update q (r ∷ rows) = (if q.id == r.id then written q r else r) ∷ update q rows

  abbrev pub started : ℕ → QueueRecord F → QueueRecord F
  started now r = record r { status = QueueStatus.processing; updated_at = now }

  unfoldable pub start : ℕ → ℕ → List (QueueRecord F) → List (QueueRecord F)
  start now k [] = []
  start now k (r ∷ rows) = (if k == r.id then started now r else r) ∷ start now k rows

  abbrev pub claim_row :
      ℕ → ℕ → QueueRecord F → List (QueueRecord F) → Result String (Bool × List (QueueRecord F))
  claim_row stale_before now r rows =
      if is_claimable stale_before r.status r.updated_at
      then (if violates r.id r.symbol rows then err r.symbol else ok (true, start now r.id rows))
      else ok (false, rows)

  unfoldable pub claim_for_processing :
      ℕ → ℕ → ℕ → List (QueueRecord F) → Result String (Bool × List (QueueRecord F))
  unfolding get violates is_claimable start
  claim_for_processing stale_before now k rows = elim (get k rows) [
    | none ↦ ok (false, rows)
    | some r ↦ claim_row stale_before now r rows
  ]

  unfoldable pub insert_newest : QueueRecord F → List (QueueRecord F) → List (QueueRecord F)
  insert_newest r [] = r ∷ []
  insert_newest r (q ∷ rows) =
      if ltb r.created_at q.created_at then q ∷ insert_newest r rows else r ∷ q ∷ rows

  -- Rows of one status, the newest first; those created at one time stay as they were inserted.
  unfoldable pub having : QueueStatus → List (QueueRecord F) → List (QueueRecord F)
  unfolding insert_newest
  having s [] = []
  having s (r ∷ rows) =
      let rest = having s rows in if same_status r.status s then insert_newest r rest else rest

  unfoldable pub limited : ℕ → List (QueueRecord F) → List (QueueRecord F)
  limited zero rows = []
  limited (suc k) [] = []
  limited (suc k) (r ∷ rows) = r ∷ limited k rows

  -- `list(status=..., limit=...)`, with a status
  unfoldable pub list : QueueStatus → ℕ → List (QueueRecord F) → List (QueueRecord F)
  unfolding having limited
  list s limit rows = limited (if ltb limit 1 then 1 else limit) (having s rows)

  -- Whether `latest_open_for_symbol` finds a row.
  unfoldable pub has_open_for_symbol : String → List (QueueRecord F) → Bool
  unfolding upper
  has_open_for_symbol symbol rows = any (holds_symbol (upper symbol)) rows
