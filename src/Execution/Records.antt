-- ===== src/Execution/Records.antt =====
-- app/execution/coordinator.py and app/execution/trader.py: how the answer of a broker becomes a row
-- of executions, a mark on the proposal, and a copy for the mirrors.
use algo_trader.Prelude.{
  ℕ, String, Bool, true, false, not, ◌&&◌, Option, none, some, [], ◌∷◌, ◌++◌, str_eq, if◌then◌else◌,
}
use algo_trader.Result.{Result, ok, err}
use algo_trader.Text.{lower, starts_at, elem, is_nonempty}
use algo_trader.Float.{Float, nought}
use algo_trader.Models.{ApprovalStatus, TradeProposal}
use algo_trader.Approvals
use algo_trader.Approvals.{Clock, ProposalError, get_proposal, mark_executed}
use algo_trader.Execution.{
  ExecutionStatus, ExecutionRecord, BrokerAnswer, Call, mirror_live, mirror_parallel, Outside,
  World, Failure, proposal_failed, raised, empty, is_failed_attempt,
}
use algo_trader.Execution.Attempts

-- `TraderService._map_broker_status`
unfoldable pub map_broker_status : String → ExecutionStatus
unfolding starts_at
map_broker_status s =
    if starts_at "simulated" s
    then ExecutionStatus.submitted
    else if str_eq s "failed"
    then ExecutionStatus.failed
    else if str_eq s "blocked"
    then ExecutionStatus.blocked
    else ExecutionStatus.submitted

-- `ExecutionCoordinator._map_broker_execution_status`
unfoldable pub map_broker_execution_status : String → ExecutionStatus
unfolding lower
map_broker_execution_status s =
    if elem (lower s) ("failed" ∷ "rejected" ∷ "canceled" ∷ "cancelled" ∷ [])
    then ExecutionStatus.failed
    else if str_eq (lower s) "blocked"
    then ExecutionStatus.blocked
    else ExecutionStatus.submitted

-- The status under `open_market_order_by_amount`.
unfoldable pub by_amount_status : String → ExecutionStatus
by_amount_status s =
    if str_eq s "failed"
    then ExecutionStatus.failed
    else if str_eq s "blocked"
    then ExecutionStatus.blocked
    else ExecutionStatus.submitted

abbrev pub is_approved : ApprovalStatus → Bool
is_approved ApprovalStatus.approved = true
is_approved _ = false

-- The call of the client, and its answer.
abbrev pub Sent : Type 0 → Type 0
Sent F = Call F × Result String BrokerAnswer

module _ {F : Type 0} where
  abbrev pub called : Call F → World F → World F
  called x w = record w { calls = w.calls ++ (x ∷ []) }

  unfoldable pub create_execution : ExecutionRecord F → World F → World F
  unfolding Attempts.create
  create_execution x w = record w { executions = Attempts.create x w.executions }

  -- What follows `mark_executed`, if it does not raise.
  abbrev pub marked_result :
      {A : Type 0}
      → A
      → World F
      → Result (ProposalError F) (TradeProposal F) × Approvals.World F
      → Result (Failure F) A × World F
  marked_result x w (ok p, a) = (ok x, record w { approvals = a })
  marked_result x w (err e, a) = (err (proposal_failed e), record w { approvals = a })

  -- `self.proposals.mark_executed(...)`, then the value
  unfoldable pub mark : {A : Type 0} → Clock → ℕ → ℕ → A → World F → Result (Failure F) A × World F
  unfolding mark_executed
  mark clock k execution x w = marked_result x w (mark_executed clock k execution w.approvals)

  -- The copy for the live mirror, unless the attempt has failed.
  unfoldable pub mirror_live_if : Bool → TradeProposal F → ExecutionRecord F → World F → World F
  mirror_live_if live p x w =
      if live && not (is_failed_attempt x.status) then called (mirror_live p.id x.id) w else w

  unfoldable pub mirror_parallel_if :
      Option (Result String (Unit {0}))
      → TradeProposal F
      → ExecutionRecord F
      → World F
      → Result (Failure F) (ExecutionRecord F) × World F
  mirror_parallel_if none p x w = (ok x, w)
  mirror_parallel_if (some (ok u)) p x w = (ok x, called (mirror_parallel p.id x.id) w)
  mirror_parallel_if (some (err e)) p x w = (err (raised e), called (mirror_parallel p.id x.id) w)

  -- `_mirror_parallel`
  unfoldable pub mirrored :
      Outside F
      → TradeProposal F
      → ExecutionRecord F
      → World F
      → Result (Failure F) (ExecutionRecord F) × World F
  unfolding mirror_live_if mirror_parallel_if
  mirrored o p x w = mirror_parallel_if o.mirror p x (mirror_live_if o.live_mirror p x w)

  abbrev pub next_mirrored :
      Outside F
      → TradeProposal F
      → Result (Failure F) (ExecutionRecord F) × World F
      → Result (Failure F) (ExecutionRecord F) × World F
  next_mirrored o p (ok x, w) = mirrored o p x w
  next_mirrored o p (err e, w) = (err e, w)

  -- The new execution is stored, the proposal is marked, and the copy goes to the mirrors.
  unfoldable pub submitted :
      Outside F
      → TradeProposal F
      → ExecutionRecord F
      → World F
      → Result (Failure F) (ExecutionRecord F) × World F
  unfolding create_execution mark mirrored
  submitted o p x w =
      next_mirrored o p (mark o.marked p.id x.id (Attempts.attribute x) (create_execution x w))

  -- The execution that an earlier pass stored under the broker's order id.
  unfoldable pub known_order : Option String → World F → Option (ExecutionRecord F)
  unfolding Attempts.get_by_broker_order_id
  known_order none w = none
  known_order (some t) w =
      if is_nonempty t then Attempts.get_by_broker_order_id t w.executions else none

  unfoldable pub record_answer :
      Outside F
      → TradeProposal F
      → Option (ExecutionRecord F)
      → ExecutionRecord F
      → World F
      → Result (Failure F) (ExecutionRecord F) × World F
  unfolding mark submitted
  record_answer o p (some old) x w = mark o.marked p.id old.id old w
  record_answer o p none x w = submitted o p x w

module _ {F : Type 0} ⦃n : Float F⦄ where
  -- A new row: when it is made, and its id.
  abbrev pub blank : ℕ → ℕ → TradeProposal F → String → String → ExecutionRecord F
  blank now k p cid mode = record {
    id = k;
    proposal_id = p.id;
    status = ExecutionStatus.submitted;
    mode = mode;
    broker_order_id = none;
    strategy_name = none;
    request = some (p.order, cid);
    response = empty;
    error_message = none;
    realized_pnl_usd = nought;
    created_at = now;
    updated_at = now;
  }

module _ {F : Type 0} where
  -- The call leaves, and its answer is recorded.
  unfoldable pub perform :
      (BrokerAnswer → World F → Result (Failure F) (ExecutionRecord F) × World F)
      → Result (Failure F) (Sent F)
      → World F
      → Result (Failure F) (ExecutionRecord F) × World F
  perform rest (err e) w = (err e, w)
  perform rest (ok (call, ok a)) w = rest a (called call w)
  perform rest (ok (call, err e)) w = (err (raised e), called call w)
