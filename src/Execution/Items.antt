-- ===== src/Execution/Items.antt =====
-- app/execution/coordinator.py: what the coordinator writes to a queue item, and when it is settled.
use algo_trader.Prelude.{
  ℕ, Bool, true, false, Option, none, some, List, if◌then◌else◌, is_some, is_empty,
}
use algo_trader.Result.{Result, ok}
use algo_trader.Risk.Context.{RoomAuthority}
use algo_trader.Execution.{
  QueueStatus, QueueRecord, Validation, ready, objected, Objection, Failure, World,
}
use algo_trader.Execution.Queue
use algo_trader.Execution.Attempts

abbrev pub is_paper_authority : RoomAuthority → Bool
is_paper_authority RoomAuthority.paper = true
is_paper_authority RoomAuthority.etoro_live = false

-- Executed, cancelled or failed.
abbrev pub is_final : QueueStatus → Bool
is_final QueueStatus.executed = true
is_final QueueStatus.cancelled = true
is_final QueueStatus.failed = true
is_final _ = false

module _ {F : Type 0} where
  -- `self.queue.update(record)`, and the record
  unfoldable pub saved : QueueRecord F → World F → Result (Failure F) (QueueRecord F) × World F
  unfolding Queue.update
  saved r w = (ok r, record w { queue = Queue.update r w.queue })

  -- The proposal is not approved any more: `ready_for_execution` stays.
  abbrev pub unapproved : ℕ → Validation F → QueueRecord F → QueueRecord F
  unapproved now reason r = record r {
    status = QueueStatus.blocked;
    validation_reason = some reason;
    updated_at = now;
  }

  abbrev pub blocked_item : ℕ → Validation F → QueueRecord F → QueueRecord F
  blocked_item now reason r = record r {
    status = QueueStatus.blocked;
    ready_for_execution = false;
    validation_reason = some reason;
    updated_at = now;
  }

  abbrev pub executed_item : ℕ → ℕ → ℕ → QueueRecord F → QueueRecord F
  executed_item now since k r = record r {
    status = QueueStatus.executed;
    executed_at = some since;
    updated_at = now;
    execution_id = some k;
  }

  abbrev pub validated_item : Option F → Option ℕ → List Objection → QueueRecord F → QueueRecord F
  validated_item price timestamp found r = record r {
    latest_quote_price = price;
    latest_quote_timestamp = timestamp;
    ready_for_execution = is_empty found;
    validation_reason = some (if is_empty found then ready else objected found);
  }

  -- The payload names an execution that is stored.
  unfoldable pub is_recorded : QueueRecord F → World F → Bool
  unfolding Attempts.get
  is_recorded r w = elim r.execution_id [
    | none ↦ false
    | some k ↦ is_some (Attempts.get k w.executions)
  ]
