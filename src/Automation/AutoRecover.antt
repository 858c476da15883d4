-- ===== src/Automation/AutoRecover.antt =====
-- app/automation/auto_recover.py: clearing a tripped breaker after a clean reconciliation, in paper
-- mode only. The reconciliation, the notifier and the day's name are arguments.
pub mod Safety
pub mod Daily
use algo_trader.Prelude.{
  ℕ, ◌+◌, ◌*◌, String, Bool, true, false, not, ◌&&◌, ◌||◌, Option, none, some, List, ltb,
  if◌then◌else◌, is_empty,
}
use algo_trader.Result.{Result, ok, err}
use algo_trader.Dict.{lookup}
use algo_trader.Text.{is_nonempty, concat, starts_at, contains}
use algo_trader.Automation.{
  text, time, number, AutomationSettings, is_live, World, recover_probe_error,
  recover_still_blocked, auto_resumed, resume_notify_failed, reason_key, circuit_reason_key, put,
  log, text_at, resume, clear_circuit_breaker,
}

abbrev pub last_probe_key : String
last_probe_key = "automation:auto_recover:last_probe_at"

abbrev pub resume_count_key_prefix : String
resume_count_key_prefix = "automation:auto_recover:resumes:"

-- Counts are not negative; the interval is in seconds.
pub record RecoverSettings : Type 0 where
  pub base : AutomationSettings
  pub paper_auto_recover_circuit_breaker : Bool
  pub probe_interval_seconds : ℕ
  pub max_resumes_per_day : ℕ

pub record Probe : Type 0 where
  pub status_ok : Bool
  pub issues : List String

-- `reconcile` raises with a text, or returns; it may write the state.
pub record Host : Type 0 where
  pub reconcile : Option (World → Result String Probe × World)
  -- does `send_text` raise?
  pub notifier : Option Bool
  -- `now.strftime("%Y-%m-%d")`
  pub day : ℕ → String

abbrev pub count_key : Host → ℕ → String
count_key h now = concat resume_count_key_prefix (h.day now)

-- `int(runtime_state.get(count_key) or 0)`; the code stores numbers there
unfoldable pub number_at : String → World → ℕ
number_at k w = elim (lookup k w.runtime) [
  | some (number n) ↦ n
  | some (text s) ↦ 0
  | some (time t) ↦ 0
  | none ↦ 0
]

-- Is the last probe closer than the interval? Times are in microseconds.
unfoldable pub too_soon : RecoverSettings → ℕ → World → Bool
too_soon s now w = elim (lookup last_probe_key w.runtime) [
  | some (time t) ↦ ltb now (t + s.probe_interval_seconds * 1_000_000)
  | some (text x) ↦ false
  | some (number n) ↦ false
  | none ↦ false
]

unfoldable pub is_never_resumed : String → Bool
unfolding contains
is_never_resumed reason =
    contains "account_mismatch" reason || contains "alpaca_trading_blocked" reason

-- The early returns that read the settings.
unfoldable pub settings_allow : RecoverSettings → Bool
settings_allow s =
    s.paper_auto_recover_circuit_breaker
    && (not (is_live s.base.execution_mode)
        && (not s.base.enable_real_trading && not s.base.kill_switch_enabled))

-- The early returns that read the breaker: the last reason has to be a breaker's.
unfoldable pub breaker_allows : World → Bool
breaker_allows w =
    let breaker_reason = text_at circuit_reason_key w in
    is_nonempty breaker_reason
    && (starts_at "circuit breaker:" (text_at reason_key w)
        && not (is_never_resumed breaker_reason))

unfoldable pub may_probe : Host → RecoverSettings → ℕ → World → Bool
unfolding settings_allow breaker_allows
may_probe h s now w =
    settings_allow s
    && (breaker_allows w
        && (not (too_soon s now w) && ltb (number_at (count_key h now) w) s.max_resumes_per_day))

abbrev pub notify : Option Bool → World → World
notify (some true) w = log resume_notify_failed w
notify (some false) w = w
notify none w = w

-- The reconciliation was clean. `count` was read before the probe.
unfoldable pub recover : Host → ℕ → ℕ → ℕ → String → World → World
recover h now later count breaker_reason w =
    let w1 =
      resume later (concat "auto-recovered: reconciliation clean after " breaker_reason)
        (clear_circuit_breaker w) in
    notify h.notifier
      (log (auto_resumed (count + 1)) (put (count_key h now) (number (count + 1)) w1))

-- What follows the probe.
unfoldable pub judge : Host → ℕ → ℕ → ℕ → String → Result String Probe × World → Bool × World
unfolding recover
judge h now later count breaker_reason (err e, w) = (false, log (recover_probe_error e) w)
judge h now later count breaker_reason (ok p, w) =
    if not p.status_ok || not (is_empty p.issues)
    then (false, log (recover_still_blocked p.issues) w)
    else (true, recover h now later count breaker_reason w)

-- Past the test that there is a reconciliation.
unfoldable pub attempt :
    Host → RecoverSettings → ℕ → ℕ → (World → Result String Probe × World) → World → Bool × World
unfolding may_probe judge
attempt h s now later reconcile w =
    if may_probe h s now w
    then judge h now later (number_at (count_key h now) w) (text_at circuit_reason_key w)
        (reconcile (put last_probe_key (time now) w))
    else (false, w)

-- `now` and `later` are the two readings of the clock.
unfoldable pub try_auto_recover : Host → RecoverSettings → ℕ → ℕ → World → Bool × World
unfolding attempt
try_auto_recover h s now later w = elim h.reconcile [
  | none ↦ (false, w)
  | some reconcile ↦ attempt h s now later reconcile w
]
