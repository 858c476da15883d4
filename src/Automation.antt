-- ===== src/Automation.antt =====
-- app/automation/service.py: the pause flag, the kill switch and the circuit breaker, kept in the
-- runtime state, and what they block. Stored texts that stand for a time or a number are kept as what
-- they encode.
pub mod Blocked
pub mod Effects
pub mod AutoRecover
pub mod Tests
use algo_trader.Prelude.{
  ℕ, ◌+◌, String, Bool, true, false, not, ◌&&◌, ◌||◌, Option, none, some, List, [], ◌∷◌, ◌++◌, map,
  ◌==◌, if◌then◌else◌, is_some, when,
}
use algo_trader.Result.{Result, ok, err}
use algo_trader.Dict.{Dict, lookup, insert}
use algo_trader.Text.{lower, strip, elem, is_nonempty, concat}

pub data Value : Type 0 where
  text : String → Value
  time : ℕ → Value
  number : ℕ → Value

pub data Mode : Type 0 where
  paper live : Mode

abbrev pub is_live : Mode → Bool
is_live Mode.live = true
is_live Mode.paper = false

-- `micro_live_cap_ok` is the test `portfolio_micro_live_max_risk_per_trade_pct <= 0.1` of the settings.
pub record AutomationSettings : Type 0 where
  pub automation_paused_default : Bool
  pub kill_switch_enabled : Bool
  pub kill_switch_auto_close_positions : Bool
  pub expected_account_number : String
  pub execution_mode : Mode
  pub require_approval : Bool
  pub enable_real_trading : Bool
  pub paper_trading_enabled : Bool
  pub institutional_portfolio_controls_enabled : Bool
  pub micro_live_cap_ok : Bool
  pub live_operator_acknowledgement : String

-- A broker client as the emergency stop sees it: what it can do, and how that ends.
pub record Client : Type 0 where
  pub name : String
  pub cancel_all_orders : Option (Result String ℕ)
  pub close_all_positions : Option (Result String ℕ)

pub record ClientItem : Type 0 where
  pub client : String
  pub orders_cancelled : ℕ
  pub positions_closed : ℕ
  pub errors : List String
  pub close_skipped : Bool

-- What leaves the service: log rows, the mark on the live exit copy, calls of the brokers.
pub data Event : Type 0 where
  automation_state_changed : Bool → Option Bool → String → Event
  paper_safety_flatten_marked : String → Event
  cancel_all_called : String → Event
  close_all_called : String → Event
  kill_switch_emergency_stop : String → ℕ → ℕ → Bool → List ClientItem → Event
  recover_probe_error : String → Event
  recover_still_blocked : List String → Event
  auto_resumed : ℕ → Event
  resume_notify_failed : Event

pub record World : Type 0 where
  pub runtime : Dict Value
  pub events : List Event

abbrev pub paused_key : String
paused_key = "automation:paused"

abbrev pub kill_switch_key : String
kill_switch_key = "automation:kill_switch"

abbrev pub reason_key : String
reason_key = "automation:reason"

abbrev pub updated_at_key : String
updated_at_key = "automation:updated_at"

abbrev pub circuit_reason_key : String
circuit_reason_key = "automation:circuit_breaker_reason"

abbrev pub account_verified_key : String
account_verified_key = "automation:account_verified"

-- `self.state.set(key, value)`
abbrev pub put : String → Value → World → World
put k v w = record w { runtime = insert k v w.runtime }

abbrev pub log : Event → World → World
log e w = record w { events = w.events ++ (e ∷ []) }

abbrev pub flag : Bool → Value
flag true = text "true"
flag false = text "false"

-- `_to_bool`, of a stored value or `None`
unfoldable pub to_bool : Option Value → Bool
to_bool none = false
to_bool (some (text s)) = elem (lower (strip s)) ("1" ∷ "true" ∷ "yes" ∷ "on" ∷ [])
to_bool (some (number n)) = n == 1
to_bool (some (time t)) = false

-- `self.state.get(key) or ""`
unfoldable pub text_at : String → World → String
text_at k w = elim (lookup k w.runtime) [
  | some (text s) ↦ s
  | some (time t) ↦ ""
  | some (number n) ↦ ""
  | none ↦ ""
]

unfoldable pub is_paused : AutomationSettings → World → Bool
is_paused s w = elim (lookup paused_key w.runtime) [
  | none ↦ s.automation_paused_default
  | some v ↦ to_bool (some v)
]

unfoldable pub is_killed : AutomationSettings → World → Bool
is_killed s w = s.kill_switch_enabled || to_bool (lookup kill_switch_key w.runtime)

-- `_set_state`; `kill_switch` is `None` where it is left as it is
unfoldable pub set_state : ℕ → Bool → Option Bool → String → World → World
set_state now paused kill_switch reason w =
    let w1 = put paused_key (flag paused) w in
    let w2 : World = elim kill_switch [ none ↦ w1 | some k ↦ put kill_switch_key (flag k) w1 ] in
    let w3 = put updated_at_key (time now) (put reason_key (text reason) w2) in
    log (automation_state_changed paused kill_switch reason) w3

-- `reason or default`
abbrev pub reason_or : String → String → String
reason_or reason default = if is_nonempty reason then reason else default

unfoldable pub pause : ℕ → String → World → World
pause now reason = set_state now true none (reason_or reason "paused manually")

unfoldable pub resume : ℕ → String → World → World
resume now reason = set_state now false (some false) (reason_or reason "resumed manually")

abbrev outcome_count : Option (Result String ℕ) → ℕ
outcome_count (some (ok n)) = n
outcome_count (some (err e)) = 0
outcome_count none = 0

abbrev outcome_errors : String → Option (Result String ℕ) → List String
outcome_errors call (some (err e)) = concat call (concat ":" e) ∷ []
outcome_errors call (some (ok n)) = []
outcome_errors call none = []

stop_item : Bool → Client → ClientItem
stop_item close_allowed c = record {
  client = c.name;
  orders_cancelled = outcome_count c.cancel_all_orders;
  positions_closed = if close_allowed then outcome_count c.close_all_positions else 0;
  errors =
      outcome_errors "cancel_all_orders" c.cancel_all_orders
      ++ (if close_allowed then outcome_errors "close_all_positions" c.close_all_positions else []);
  close_skipped = not close_allowed;
}

stop_calls : Bool → Client → List Event
stop_calls close_allowed c =
    when (is_some c.cancel_all_orders) (cancel_all_called c.name)
    ++ when (close_allowed && is_some c.close_all_positions) (close_all_called c.name)

stop_all_calls : Bool → List Client → List Event
stop_all_calls close_allowed [] = []
stop_all_calls close_allowed (c ∷ cs) =
    stop_calls close_allowed c ++ stop_all_calls close_allowed cs

abbrev cancelled_in : List ClientItem → ℕ
cancelled_in [] = 0
cancelled_in (i ∷ is) = i.orders_cancelled + cancelled_in is

abbrev closed_in : List ClientItem → ℕ
closed_in [] = 0
closed_in (i ∷ is) = i.positions_closed + closed_in is

unfoldable pub close_allowed : AutomationSettings → Bool
close_allowed s = not (is_live s.execution_mode) || s.kill_switch_auto_close_positions

-- `_emergency_stop`; `none` is a service with no broker router
unfoldable pub emergency_stop : AutomationSettings → Option (List Client) → String → World → World
unfolding stop_item stop_calls stop_all_calls close_allowed
emergency_stop s none reason w = w
emergency_stop s (some clients) reason w =
    let allowed = close_allowed s in
    let items = map (stop_item allowed) clients in
    record w {
      events =
          w.events
          ++ (when allowed (paper_safety_flatten_marked (concat "emergency_stop:" reason))
              ++ (stop_all_calls allowed clients
                  ++ (kill_switch_emergency_stop reason (cancelled_in items) (closed_in items)
                        allowed items
                      ∷ [])));
    }

unfoldable pub enable_kill_switch :
    AutomationSettings → Option (List Client) → ℕ → String → Bool → World → World
enable_kill_switch s clients now reason stop w =
    let effective = reason_or reason "kill switch enabled" in
    let w' = set_state now true (some true) effective w in
    if stop then emergency_stop s clients effective w' else w'

unfoldable pub trip_circuit_breaker :
    AutomationSettings → Option (List Client) → ℕ → String → Bool → World → World
unfolding enable_kill_switch
trip_circuit_breaker s clients now reason stop w =
    enable_kill_switch s clients now (concat "circuit breaker: " reason) stop
      (put circuit_reason_key (text reason) w)

unfoldable pub clear_circuit_breaker : World → World
clear_circuit_breaker = put circuit_reason_key (text "")

unfoldable pub set_account_verified : Bool → World → World
set_account_verified verified = put account_verified_key (flag verified)
