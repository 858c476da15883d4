-- ===== src/Automation/Effects.antt =====
-- What the operations of app/automation/service.py do to the blockers.
use algo_trader.Prelude.{
  ℕ, String, ◌≡◌, refl, ◌∙◌, ◌↔◌, Bool, true, false, ◌||◌, Option, none, some, List, [], ◌∷◌, ◌++◌,
  arith, eq_iff, is_empty, when, is_empty-append, is_empty-when,
}
use algo_trader.Dict.{lookup, lookup-insert}
use algo_trader.Text.{is_nonempty, concat, lower, strip}
use algo_trader.Automation.{
  text, AutomationSettings, is_live, Client, World, paused_key, kill_switch_key, circuit_reason_key,
  account_verified_key, reason_key, put, flag, to_bool, text_at, is_paused, is_killed, set_state,
  pause, resume, emergency_stop, enable_kill_switch, trip_circuit_breaker, clear_circuit_breaker,
  reason_or,
}
use algo_trader.Automation.Blocked.{
  kill_switch_enabled, automation_paused, circuit_breaker, live_operator_acknowledgement,
  scan_blockers, go_live_guard_blockers, live_blockers, later_blockers, execution_blockers,
}

to_bool-flag : (b : Bool) → to_bool (some (flag b)) ≡ b
unfolding to_bool lower strip
to_bool-flag true = refl
to_bool-flag false = refl

-- What stands at the two flags after `_set_state`.
pub paused-set_state :
    (now : ℕ) (p : Bool) (k : Option Bool) (reason : String) (w : World)
    → lookup paused_key (set_state now p k reason w).runtime ≡ some (flag p)
unfolding set_state
paused-set_state now p none reason w = simp lookup-insert
paused-set_state now p (some k) reason w = simp lookup-insert

pub killed-set_state :
    (now : ℕ) (p : Bool) (k : Option Bool) (reason : String) (w : World)
    → lookup kill_switch_key (set_state now p k reason w).runtime
      ≡ elim k [ none ↦ lookup kill_switch_key w.runtime | some b ↦ some (flag b) ]
unfolding set_state
killed-set_state now p none reason w = simp lookup-insert
killed-set_state now p (some k) reason w = simp lookup-insert

pub reason-set_state :
    (now : ℕ) (p : Bool) (k : Option Bool) (reason : String) (w : World)
    → lookup reason_key (set_state now p k reason w).runtime ≡ some (text reason)
unfolding set_state
reason-set_state now p none reason w = simp lookup-insert
reason-set_state now p (some k) reason w = simp lookup-insert

circuit-set_state :
    (now : ℕ) (p : Bool) (k : Option Bool) (reason : String) (w : World)
    → lookup circuit_reason_key (set_state now p k reason w).runtime
      ≡ lookup circuit_reason_key w.runtime
unfolding set_state
circuit-set_state now p none reason w = simp lookup-insert
circuit-set_state now p (some k) reason w = simp lookup-insert

runtime-emergency_stop :
    (s : AutomationSettings) (clients : Option (List Client)) (reason : String) (w : World)
    → (emergency_stop s clients reason w).runtime ≡ w.runtime
unfolding emergency_stop
runtime-emergency_stop s none reason w = refl
runtime-emergency_stop s (some cs) reason w = refl

pub runtime-enable_kill_switch :
    (s : AutomationSettings) (clients : Option (List Client)) (now : ℕ) (reason : String)
    (stop : Bool) (w : World)
    → (enable_kill_switch s clients now reason stop w).runtime
      ≡ (set_state now true (some true) (reason_or reason "kill switch enabled") w).runtime
unfolding enable_kill_switch
runtime-enable_kill_switch s clients now reason true w = runtime-emergency_stop s clients _ _
runtime-enable_kill_switch s clients now reason false w = refl

is_paused_of_flag :
    (s : AutomationSettings) (w : World) (p : Bool)
    → lookup paused_key w.runtime ≡ some (flag p)
    → is_paused s w ≡ p
unfolding is_paused
is_paused_of_flag s w p e = rw (e, is_paused) (to_bool-flag p)

is_killed_of_flag :
    (s : AutomationSettings) (w : World) (k : Bool)
    → lookup kill_switch_key w.runtime ≡ some (flag k)
    → is_killed s w ≡ (s.kill_switch_enabled || k)
unfolding is_killed
is_killed_of_flag s w k e = rw (e, is_killed, to_bool-flag)

-- The blockers depend on the two flags of the runtime state alone.
pub scan_blockers_of_flags :
    (s : AutomationSettings) (w : World) (p k : Bool)
    → lookup paused_key w.runtime ≡ some (flag p)
    → lookup kill_switch_key w.runtime ≡ some (flag k)
    → scan_blockers s w
      ≡ when (s.kill_switch_enabled || k) kill_switch_enabled ++ when p automation_paused
unfolding scan_blockers
scan_blockers_of_flags s w p k e f = rw (is_paused_of_flag s w p e, is_killed_of_flag s w k f)

module _ (s : AutomationSettings) (clients : Option (List Client)) (now : ℕ) where
  killed_blockers :
      (w : World)
      → lookup paused_key w.runtime ≡ some (flag true)
      → lookup kill_switch_key w.runtime ≡ some (flag true)
      → scan_blockers s w ≡ kill_switch_enabled ∷ automation_paused ∷ []
  killed_blockers w e f = scan_blockers_of_flags s w true true e f ∙ settle s.kill_switch_enabled
    where
      settle :
          (b : Bool)
          → when (b || true) kill_switch_enabled ++ when true automation_paused
            ≡ kill_switch_enabled ∷ automation_paused ∷ []
      settle true = refl
      settle false = refl

  flags-enable_kill_switch :
      (reason : String) (stop : Bool) (w : World)
      → let r = (enable_kill_switch s clients now reason stop w).runtime in
        (lookup paused_key r ≡ some (flag true))
        × (lookup kill_switch_key r ≡ some (flag true))
        × (lookup circuit_reason_key r ≡ lookup circuit_reason_key w.runtime)
  flags-enable_kill_switch reason stop w =
      let full = reason_or reason "kill switch enabled" in
      rw (runtime-enable_kill_switch s clients now reason stop w) (
        paused-set_state now true (some true) full w,
        killed-set_state now true (some true) full w,
        circuit-set_state now true (some true) full w,
      )

  -- The kill switch blocks scans twice over, whatever the reason, with or without an emergency
  -- stop, and however the broker clients answer that.
  pub enable_kill_switch-blocks :
      (reason : String) (stop : Bool) (w : World)
      → scan_blockers s (enable_kill_switch s clients now reason stop w)
        ≡ kill_switch_enabled ∷ automation_paused ∷ []
  enable_kill_switch-blocks reason stop w =
      let (e, f, _) = flags-enable_kill_switch reason stop w in killed_blockers _ e f

  flags-trip :
      (reason : String) (stop : Bool) (w : World)
      → let r = (trip_circuit_breaker s clients now reason stop w).runtime in
        (lookup paused_key r ≡ some (flag true))
        × (lookup kill_switch_key r ≡ some (flag true))
        × (lookup circuit_reason_key r ≡ some (text reason))
  unfolding trip_circuit_breaker
  flags-trip reason stop w =
      let w' = put circuit_reason_key (text reason) w in
      let (e, f, g) = flags-enable_kill_switch (concat "circuit breaker: " reason) stop w' in
      (e, f, g ∙ simp lookup-insert)

  -- After a trip, clearing the breaker alone unblocks nothing: scans stay blocked by the kill switch
  -- and by the pause until a resume.
  pub clear-trip_blocks :
      (reason : String) (stop : Bool) (w : World)
      → scan_blockers s (clear_circuit_breaker (trip_circuit_breaker s clients now reason stop w))
        ≡ kill_switch_enabled ∷ automation_paused ∷ []
  unfolding clear_circuit_breaker
  clear-trip_blocks reason stop w =
      let (e, f, _) = flags-trip reason stop w in
      killed_blockers _ (simp lookup-insert e) (simp lookup-insert f)

  text_of_breaker :
      (w : World) (reason : String)
      → lookup circuit_reason_key w.runtime ≡ some (text reason)
      → text_at circuit_reason_key w ≡ reason
  unfolding text_at
  text_of_breaker w reason e = rw (e, text_at)

  -- While the breaker is tripped for a reason, executions are blocked, and the breaker's reason is
  -- among the blockers, behind the two of a scan.
  pub trip_circuit_breaker-blocks :
      (ready : World → Bool) (reason : String) (stop : Bool) (w : World)
      → is_nonempty reason ≡ true
      → let w' = trip_circuit_breaker s clients now reason stop w in
        execution_blockers ready s w'
        ≡ kill_switch_enabled
          ∷ automation_paused
          ∷ circuit_breaker reason
          ∷ later_blockers ready s w'
  unfolding execution_blockers
  trip_circuit_breaker-blocks ready reason stop w named =
      let (e, f, g) = flags-trip reason stop w in
      let w' = trip_circuit_breaker s clients now reason stop w in
      rw (killed_blockers w' e f, text_of_breaker w' reason g, named)

  -- A resume clears both flags: the only scan blocker left is the kill switch of the settings.
  pub resume-unblocks :
      (reason : String) (w : World)
      → scan_blockers s (resume now reason w) ≡ when s.kill_switch_enabled kill_switch_enabled
  unfolding resume
  resume-unblocks reason w =
      scan_blockers_of_flags s _ false false (paused-set_state now false (some false) _ w)
        (killed-set_state now false (some false) _ w)
      ∙ settle s.kill_switch_enabled
    where
      settle :
          (b : Bool)
          → when (b || false) kill_switch_enabled ++ when false automation_paused
            ≡ when b kill_switch_enabled
      settle true = refl
      settle false = refl

  -- A pause stops scans and leaves the kill switch as it is.
  pub pause-keeps_switch :
      (reason : String) (w : World)
      → (is_paused s (pause now reason w) ≡ true)
        × (is_killed s (pause now reason w) ≡ is_killed s w)
  unfolding pause is_killed
  pause-keeps_switch reason w = (
    is_paused_of_flag s _ true (paused-set_state now true none _ w),
    rw (killed-set_state now true none (reason_or reason "paused manually") w),
  )

-- What every lock of live trading asks.
pub record LiveUnlocked (ready : World → Bool) (s : AutomationSettings) (w : World) : Type 0 where
  pub approval : s.require_approval ≡ true
  pub real_trading : s.enable_real_trading ≡ true
  pub no_paper : s.paper_trading_enabled ≡ false
  pub readiness : ready w ≡ true
  pub controls : s.institutional_portfolio_controls_enabled ≡ true
  pub micro_live_cap : s.micro_live_cap_ok ≡ true
  pub acknowledged : s.live_operator_acknowledgement ≡ live_operator_acknowledgement

-- What the state asks in every mode.
pub record Unblocked (s : AutomationSettings) (w : World) : Type 0 where
  pub alive : is_killed s w ≡ false
  pub running : is_paused s w ≡ false
  pub breaker : is_nonempty (text_at circuit_reason_key w) ≡ false
  pub account :
      is_nonempty s.expected_account_number ≡ true
      → to_bool (lookup account_verified_key w.runtime) ≡ true

-- Nothing blocks an execution exactly when the kill switch, the pause and the breaker are off, an
-- expected account is verified, and in live mode every lock is open: approval and real trading
-- on, paper trading off, the readiness met, the micro-live cap active, the phrase acknowledged.
pub execution_blockers-eq-nil_iff :
    (ready : World → Bool) (s : AutomationSettings) (w : World)
    → (is_empty (execution_blockers ready s w) ≡ true)
      ↔ (Unblocked s w × (is_live s.execution_mode ≡ true → LiveUnlocked ready s w))
unfolding execution_blockers scan_blockers later_blockers live_blockers go_live_guard_blockers
execution_blockers-eq-nil_iff ready s w =
    simp (is_empty-append, is_empty-when)
      (ground (arith, eq_iff s.live_operator_acknowledgement live_operator_acknowledgement))
