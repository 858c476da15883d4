-- ===== src/Automation/Blocked.antt =====
-- What app/automation/service.py blocks: scans, and executions, which the live locks guard too.
use algo_trader.Prelude.{String, Bool, not, ◌&&◌, List, [], ◌∷◌, ◌++◌, str_eq, if◌then◌else◌, when}
use algo_trader.Dict.{lookup}
use algo_trader.Text.{is_nonempty}
use algo_trader.Automation.{
  AutomationSettings, is_live, World, circuit_reason_key, account_verified_key, to_bool, text_at,
  is_paused, is_killed,
}

pub data Blocker : Type 0 where
  kill_switch_enabled : Blocker
  automation_paused : Blocker
  circuit_breaker : String → Blocker
  account_not_verified : Blocker
  approval_must_remain_enabled : Blocker
  enable_real_trading_false : Blocker
  paper_trading_in_live_mode : Blocker
  go_live_readiness_not_met : Blocker
  micro_live_risk_cap_not_active : Blocker
  micro_live_risk_cap_too_high : Blocker
  operator_acknowledgement_missing : Blocker

abbrev pub live_operator_acknowledgement : String
live_operator_acknowledgement = "I accept real-money risk on this account"

unfoldable pub scan_blockers : AutomationSettings → World → List Blocker
scan_blockers s w =
    when (is_killed s w) kill_switch_enabled ++ when (is_paused s w) automation_paused

-- `ready` is `readiness_ready` of the state.
unfoldable pub go_live_guard_blockers : (World → Bool) → AutomationSettings → World → List Blocker
go_live_guard_blockers ready s w =
    when (not (ready w)) go_live_readiness_not_met
    ++ ((if not s.institutional_portfolio_controls_enabled
          then micro_live_risk_cap_not_active ∷ []
          else when (not s.micro_live_cap_ok) micro_live_risk_cap_too_high)
        ++ when (not (str_eq s.live_operator_acknowledgement live_operator_acknowledgement))
            operator_acknowledgement_missing)

unfoldable pub live_blockers : (World → Bool) → AutomationSettings → World → List Blocker
unfolding go_live_guard_blockers
live_blockers ready s w =
    when (not s.require_approval) approval_must_remain_enabled
    ++ (when (not s.enable_real_trading) enable_real_trading_false
        ++ (when s.paper_trading_enabled paper_trading_in_live_mode
            ++ go_live_guard_blockers ready s w))

-- The blockers behind those of the flags and of the breaker.
unfoldable pub later_blockers : (World → Bool) → AutomationSettings → World → List Blocker
unfolding live_blockers
later_blockers ready s w =
    when
      (is_nonempty s.expected_account_number
        && not (to_bool (lookup account_verified_key w.runtime)))
      account_not_verified
    ++ (if is_live s.execution_mode then live_blockers ready s w else [])

unfoldable pub execution_blockers : (World → Bool) → AutomationSettings → World → List Blocker
unfolding scan_blockers later_blockers
execution_blockers ready s w =
    let circuit_reason = text_at circuit_reason_key w in
    scan_blockers s w
    ++ (when (is_nonempty circuit_reason) (circuit_breaker circuit_reason)
        ++ later_blockers ready s w)
