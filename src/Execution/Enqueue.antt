-- ===== src/Execution/Enqueue.antt =====
-- app/execution/coordinator.py, `enqueue_approved_proposal`.
use algo_trader.Prelude.{ℕ, String, true, false, not, Option, none, some, List, if◌then◌else◌}
use algo_trader.Result.{Result, ok, err}
use algo_trader.Text.{upper}
use algo_trader.Float.{Float}
use algo_trader.Models.{Signal, TradeProposal}
use algo_trader.Approvals
use algo_trader.Approvals.{Clock, ProposalError, get_proposal}
use algo_trader.Execution.{
  QueueStatus, QueueRecord, Failure, not_approved, duplicate_item, proposal_failed, World,
  Coordinator,
}
use algo_trader.Execution.Queue
use algo_trader.Execution.Checks.{proposal_timeframe}
use algo_trader.Execution.Records.{is_approved}

abbrev signal_id : {F : Type 0} → Option (Signal F) → Option ℕ
signal_id none = none
signal_id (some s) = some s.id

module _ {F : Type 0} ⦃n : Float F⦄ (c : Coordinator F) where
  unfoldable pub new_item : ℕ → ℕ → String → TradeProposal F → QueueRecord F
  unfolding upper proposal_timeframe
  new_item now k cid p = record {
    id = k;
    proposal_id = p.id;
    signal_id = signal_id p.signal;
    symbol = upper p.order.symbol;
    strategy_name = p.order.strategy_name;
    timeframe = proposal_timeframe p;
    mode = c.settings.risk.execution_mode;
    client_order_id = cid;
    status = QueueStatus.queued;
    approval_required = true;
    ready_for_execution = false;
    requested_entry_price = p.order.proposed_price;
    latest_quote_price = none;
    latest_quote_timestamp = none;
    validation_reason = none;
    order = p.order;
    signal = p.signal;
    execution_id = none;
    created_at = now;
    updated_at = now;
    executed_at = none;
  }

  abbrev pub queue_created :
      String
      → QueueRecord F
      → World F
      → Result String (List (QueueRecord F))
      → Result (Failure F) (QueueRecord F) × World F
  queue_created symbol r w (err taken) = (err (duplicate_item symbol), w)
  queue_created symbol r w (ok rows) = (ok r, record w { queue = rows })

  -- `cid` is the digest of the proposal's and the item's ids.
  unfoldable pub enqueue :
      ℕ → ℕ → String → TradeProposal F → World F → Result (Failure F) (QueueRecord F) × World F
  unfolding new_item Queue.has_open_for_symbol Queue.create
  enqueue now k cid p w =
      if not (is_approved p.status)
      then (err not_approved, w)
      else if Queue.has_open_for_symbol p.order.symbol w.queue
      then (err (duplicate_item p.order.symbol), w)
      else queue_created p.order.symbol (new_item now k cid p) w
          (Queue.create (new_item now k cid p) w.queue)

  abbrev pub enqueue_found :
      ℕ
      → ℕ
      → String
      → World F
      → Result (ProposalError F) (TradeProposal F) × Approvals.World F
      → Result (Failure F) (QueueRecord F) × World F
  enqueue_found now k cid w (err e, a) = (err (proposal_failed e), record w { approvals = a })
  enqueue_found now k cid w (ok p, a) = enqueue now k cid p (record w { approvals = a })

  unfoldable pub enqueue_approved_proposal :
      Clock → ℕ → ℕ → String → ℕ → World F → Result (Failure F) (QueueRecord F) × World F
  unfolding get_proposal enqueue
  enqueue_approved_proposal clock now k cid proposal w =
      enqueue_found now k cid w (get_proposal clock proposal w.approvals)
