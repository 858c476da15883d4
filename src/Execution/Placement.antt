-- ===== src/Execution/Placement.antt =====
-- app/execution/coordinator.py, `_process_queue_item` from the bracket check on: the paper ledger or a
-- broker, the fallback, and what is recorded. Each stage is a function of its own.
use algo_trader.Prelude.{ℕ, String, not, ◌&&◌, some, List, [], if◌then◌else◌, is_empty}
use algo_trader.Result.{Result, ok, err}
use algo_trader.Float.{Float, nought}
use algo_trader.Models.{TradeProposal}
use algo_trader.Broker.Router.{Choice}
use algo_trader.Risk.Settings.{is_live}
use algo_trader.Risk.Context.{RoomAuthority}
use algo_trader.Execution.{
  ExecutionStatus, QueueRecord, ExecutionRecord, bracket_failed, broker_submission_failed,
  BracketReason, PaperPosition, Failure, raised, Response, self_simulated, self_simulated_fallback,
  refused_by, open_paper_position, World, Coordinator, Outside, mode_name,
}
use algo_trader.Execution.Checks.{can_bypass_entry_drift_for_smoke, alpaca_bracket_reasons}
use algo_trader.Execution.Records.{called, create_execution, mark, blank}
use algo_trader.Execution.Orders.{is_alpaca}
use algo_trader.Execution.Submission.{execute_with_broker}
use algo_trader.Execution.Items.{
  is_paper_authority, saved, blocked_item, executed_item, is_recorded,
}

module _ {F : Type 0} ⦃n : Float F⦄ (c : Coordinator F) where
  module _ (o : Outside F) where
    unfoldable pub finish :
        QueueRecord F → ℕ → World F → Result (Failure F) (QueueRecord F) × World F
    unfolding saved
    finish r k w = saved (executed_item o.settled o.settled k r) w

    abbrev pub finish_marked :
        QueueRecord F
        → Result (Failure F) ℕ × World F
        → Result (Failure F) (QueueRecord F) × World F
    finish_marked r (ok k, w) = finish r k w
    finish_marked r (err e, w) = (err e, w)

    -- The paper ledger's answer, and the execution that stands for it.
    unfoldable pub paper_opened :
        QueueRecord F
        → TradeProposal F
        → ℕ
        → ℕ
        → (PaperPosition F → Response F)
        → Result String (PaperPosition F)
        → World F
        → Result (Failure F) (QueueRecord F) × World F
    unfolding mark create_execution finish
    paper_opened r p now k response (err e) w = (err (raised e), w)
    paper_opened r p now k response (ok position) w = finish_marked r (
        mark o.marked p.id k k (
          create_execution
            (record (blank now k p r.client_order_id "paper") { response = response position }) w))

    unfoldable pub open_paper :
        QueueRecord F
        → TradeProposal F
        → ℕ
        → ℕ
        → (PaperPosition F → Response F)
        → World F
        → Result (Failure F) (QueueRecord F) × World F
    unfolding paper_opened
    open_paper r p now k response w =
        paper_opened r p now k response o.paper (called (open_paper_position p.id p.order) w)

    -- The failed attempt is stored, and the item names it.
    unfoldable pub submission_failed :
        QueueRecord F
        → TradeProposal F
        → Choice
        → Failure F
        → World F
        → Result (Failure F) (QueueRecord F) × World F
    unfolding create_execution saved
    submission_failed r p name e w =
        saved
          (record (blocked_item o.settled broker_submission_failed r) {
            execution_id = some o.second_execution_id;
          })
          (create_execution
            (record (blank o.second_attempted o.second_execution_id p r.client_order_id
              (mode_name c.settings.risk.execution_mode)) {
                status = ExecutionStatus.failed;
                response = refused_by name;
                error_message = some e;
              })
            w)

    abbrev pub after_broker :
        QueueRecord F
        → TradeProposal F
        → Choice
        → RoomAuthority
        → Result (Failure F) (ExecutionRecord F) × World F
        → Result (Failure F) (QueueRecord F) × World F
    after_broker r p name room (ok x, w) = finish r x.id w
    after_broker r p name room (err e, w) =
        if not (is_live c.settings.risk.execution_mode)
          && (c.settings.paper_simulated_fallback_enabled && is_paper_authority room)
        then open_paper r p o.second_attempted o.second_execution_id
            (λ x. self_simulated_fallback x e) w
        else submission_failed r p name e w

    unfoldable pub place :
        QueueRecord F
        → TradeProposal F
        → ℕ
        → Choice
        → F
        → RoomAuthority
        → World F
        → Result (Failure F) (QueueRecord F) × World F
    unfolding open_paper execute_with_broker submission_failed finish is_recorded
    place r p client name price room w =
        if not (is_live c.settings.risk.execution_mode) && c.settings.paper_self_simulated
        then open_paper r p o.attempted o.execution_id self_simulated w
        else if is_recorded r w
        then (ok r, w)
        else after_broker r p name room
            (execute_with_broker c o p client name price r.client_order_id w)

    -- `min_rr`
    unfoldable pub least_reward : TradeProposal F → F
    unfolding can_bypass_entry_drift_for_smoke
    least_reward p =
        if can_bypass_entry_drift_for_smoke c p
        then nought
        else c.settings.execution_min_reward_to_risk_at_quote

    unfoldable pub bracket_reasons : TradeProposal F → Choice → F → List BracketReason
    unfolding alpaca_bracket_reasons least_reward
    bracket_reasons p name price =
        if is_alpaca name && c.settings.alpaca_require_bracket_orders
        then alpaca_bracket_reasons p.order price (least_reward p)
        else []

    unfoldable pub bracketed :
        QueueRecord F
        → TradeProposal F
        → ℕ
        → Choice
        → F
        → RoomAuthority
        → World F
        → Result (Failure F) (QueueRecord F) × World F
    unfolding bracket_reasons place saved
    bracketed r p client name price room w =
        let found = bracket_reasons p name price in
        if is_empty found
        then place r p client name price room w
        else saved (blocked_item o.settled (bracket_failed found) r) w
