-- ===== src/Automation/Tests.antt =====
-- Runs of app/automation/service.py and app/automation/auto_recover.py.
use algo_trader.Prelude.{
  ◌-◌, ◌≤◌, String, ◌≡◌, refl, ◌↔◌, ◌⊎◌, true, false, Option, some, List, [], ◌∷◌, is_empty,
}
use algo_trader.Result.{Result, ok, err}
use algo_trader.Automation.{
  Mode, AutomationSettings, is_live, Client, World, put, time, text_at, circuit_reason_key,
  is_paused, is_killed, set_state, pause, resume, emergency_stop, enable_kill_switch,
  trip_circuit_breaker, clear_circuit_breaker,
}
use algo_trader.Automation.Blocked.{
  kill_switch_enabled, automation_paused, circuit_breaker, scan_blockers, later_blockers,
  execution_blockers,
}
use algo_trader.Automation.Effects.{
  LiveUnlocked, Unblocked, enable_kill_switch-blocks, clear-trip_blocks,
  trip_circuit_breaker-blocks, resume-unblocks, pause-keeps_switch, execution_blockers-eq-nil_iff,
}
use algo_trader.Text.{starts_at, concat}
use algo_trader.Automation.AutoRecover.{
  RecoverSettings, Probe, Host, last_probe_key, resume_count_key_prefix, count_key, number_at,
  recover, too_soon, is_never_resumed, try_auto_recover,
}
use algo_trader.Automation.AutoRecover.Safety.{
  MayResume, IsClean, try_auto_recover-MayResume, try_auto_recover_refused,
  try_auto_recover-unblocks,
}
use algo_trader.Automation.AutoRecover.Daily.{
  KeepsCount, Act, recovering, tripping, run_acts, run_acts-le-quota,
}

abbrev settings : AutomationSettings
settings = record {
  automation_paused_default = false;
  kill_switch_enabled = false;
  kill_switch_auto_close_positions = false;
  expected_account_number = "PA1";
  execution_mode = Mode.paper;
  require_approval = true;
  enable_real_trading = false;
  paper_trading_enabled = true;
  institutional_portfolio_controls_enabled = false;
  micro_live_cap_ok = false;
  live_operator_acknowledgement = "";
}

abbrev fresh : World
fresh = record { runtime = []; events = [] }

abbrev clients : Option (List Client)
clients = some (
    record {
      name = "alpaca";
      cancel_all_orders = some (ok 2);
      close_all_positions = some (err "timeout");
    }
    ∷ [])

abbrev tripped : World
tripped = trip_circuit_breaker settings clients 5 "drawdown" true fresh

enable_kill_switch-blocks_example :
    scan_blockers settings (enable_kill_switch settings clients 5 "" true fresh)
    ≡ kill_switch_enabled ∷ automation_paused ∷ []
enable_kill_switch-blocks_example = enable_kill_switch-blocks settings clients 5 "" true fresh

clear-trip_blocks_example :
    scan_blockers settings (clear_circuit_breaker tripped)
    ≡ kill_switch_enabled ∷ automation_paused ∷ []
clear-trip_blocks_example = clear-trip_blocks settings clients 5 "drawdown" true fresh

trip_circuit_breaker-blocks_example :
    execution_blockers (λ w. true) settings tripped
    ≡ kill_switch_enabled
      ∷ automation_paused
      ∷ circuit_breaker "drawdown"
      ∷ later_blockers (λ w. true) settings tripped
trip_circuit_breaker-blocks_example =
    trip_circuit_breaker-blocks settings clients 5 (λ w. true) "drawdown" true fresh refl

resume-unblocks_example : scan_blockers settings (resume 9 "checked" tripped) ≡ []
resume-unblocks_example = resume-unblocks settings clients 9 "checked" tripped

pause-keeps_switch_example :
    (is_paused settings (pause 9 "" fresh) ≡ true)
    × (is_killed settings (pause 9 "" fresh) ≡ is_killed settings fresh)
pause-keeps_switch_example = pause-keeps_switch settings clients 9 "" fresh

execution_blockers-eq-nil_iff_example :
    (is_empty (execution_blockers (λ w. true) settings fresh) ≡ true) ↔ (
      Unblocked settings fresh
      × (is_live settings.execution_mode ≡ true → LiveUnlocked (λ w. true) settings fresh))
execution_blockers-eq-nil_iff_example = execution_blockers-eq-nil_iff (λ w. true) settings fresh

abbrev recover_settings : RecoverSettings
recover_settings = record {
  base = settings;
  paper_auto_recover_circuit_breaker = true;
  probe_interval_seconds = 60;
  max_resumes_per_day = 2;
}

-- A reconciliation that writes nothing and finds no issue, or one.
abbrev clean : World → Result String Probe × World
clean w = (ok (record { status_ok = true; issues = [] }), w)

abbrev dirty : World → Result String Probe × World
dirty w = (ok (record { status_ok = true; issues = "orphan order" ∷ [] }), w)

abbrev host : (World → Result String Probe × World) → Host
host reconcile = record {
  reconcile = some reconcile;
  notifier = some true;
  day = λ t. "2026-10-10";
}

KeepsCount-clean : KeepsCount clean
KeepsCount-clean d w = refl

resumes : (try_auto_recover (host clean) recover_settings 10 11 tripped).0 ≡ true
unfolding try_auto_recover text_at trip_circuit_breaker emergency_stop set_state starts_at
    is_never_resumed too_soon number_at
resumes = refl

still_blocked : (try_auto_recover (host dirty) recover_settings 10 11 tripped).0 ≡ false
unfolding try_auto_recover text_at trip_circuit_breaker emergency_stop set_state starts_at
    is_never_resumed too_soon number_at
still_blocked = refl

try_auto_recover-MayResume_example :
    MayResume (host clean) recover_settings 10 tripped
    × IsClean (ok (record { status_ok = true; issues = [] }))
    × ((try_auto_recover (host clean) recover_settings 10 11 tripped).1
        ≡ recover
            (host clean)
            10
            11
            (number_at (count_key (host clean) 10) tripped)
            (text_at circuit_reason_key tripped)
            (put last_probe_key (time 10) tripped))
try_auto_recover-MayResume_example =
    try_auto_recover-MayResume (host clean) recover_settings 10 11 tripped clean refl resumes

try_auto_recover_refused_example :
    ((try_auto_recover (host dirty) recover_settings 10 11 tripped).1 ≡ tripped)
    ⊎ ((try_auto_recover (host dirty) recover_settings 10 11 tripped).1.runtime
        ≡ (put last_probe_key (time 10) tripped).runtime)
try_auto_recover_refused_example =
    try_auto_recover_refused (host dirty) recover_settings 10 11 tripped dirty refl still_blocked

try_auto_recover-unblocks_example :
    scan_blockers settings (try_auto_recover (host clean) recover_settings 10 11 tripped).1 ≡ []
try_auto_recover-unblocks_example =
    try_auto_recover-unblocks (host clean) recover_settings 10 11 tripped clean refl resumes

-- Three trips, and a recovery after each: the quota of two stops the third.
abbrev trips : List Act
trips =
    recovering 100_000_000 100_000_001
    ∷ tripping clients 150_000_000 "drawdown" true
    ∷ recovering 200_000_000 200_000_001
    ∷ tripping clients 250_000_000 "drawdown" false
    ∷ recovering 300_000_000 300_000_001
    ∷ []

two_of_three : (run_acts (host clean) recover_settings trips tripped).0 ≡ 2
unfolding run_acts try_auto_recover text_at trip_circuit_breaker emergency_stop set_state starts_at
    is_never_resumed too_soon number_at clear_circuit_breaker resume
two_of_three = refl

run_acts-le-quota_example :
    (run_acts (host clean) recover_settings trips tripped).0
    ≤ 2 - number_at (concat resume_count_key_prefix "2026-10-10") tripped
run_acts-le-quota_example =
    run_acts-le-quota (host clean) recover_settings clean "2026-10-10" trips tripped refl
      KeepsCount-clean (refl, (tt, (refl, (tt, (refl, tt)))))
