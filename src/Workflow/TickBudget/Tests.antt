-- ===== src/Workflow/TickBudget/Tests.antt =====
-- Runs of the tick budget of app/workflow/cadence_budget.py.
use algo_trader.Prelude.{◌+◌, ◌*◌, ◌≤◌, ◌≡◌, refl, true, false, none, some, arith}
use algo_trader.Workflow.TickBudget.{
  second, scan_setup, CadenceBudget, TickSettings, for_tick, prestart_of, admits, scan_fits,
}
use algo_trader.Workflow.TickBudget.Admission.{admits-scan_fits}

abbrev settings : TickSettings
settings = record {
  scheduler_cadence_soft_budget = none;
  scheduler_job_timeout = 0;
  intraday_active_mover_shortlist_enabled = true;
}

abbrev budget : CadenceBudget
budget = record { started_at = 0; job_timeout = 240 * second; legacy_soft_budget = none }

is_for_tick : for_tick settings 0 ≡ some budget
unfolding for_tick
is_for_tick = refl

-- The intraday bucket may start up to 87 seconds into the tick.
intraday_admitted : admits budget "intraday_rotation" settings (87 * second) ≡ true
unfolding admits
intraday_admitted = refl

intraday_refused : admits budget "intraday_rotation" settings (88 * second) ≡ false
unfolding admits
intraday_refused = refl

in_time : 125 * second + scan_setup ≤ 87 * second + prestart_of settings "intraday_rotation"
unfolding prestart_of
in_time = omega arith

admits-scan_fits_example : scan_fits budget (125 * second) ≡ true
admits-scan_fits_example =
    admits-scan_fits budget settings "intraday_rotation" (87 * second) (125 * second)
      intraday_admitted in_time
