-- ===== src/Workflow/TickBudget.antt =====
-- app/workflow/cadence_budget.py: which scans of one scheduler tick may start, and when a scan stops.
-- Readings of the monotonic clock and durations are microseconds; what the code subtracts from a
-- deadline is added on the other side here, so that nothing is lost below 0.
pub mod Admission
pub mod Tests
use algo_trader.Prelude.{
  ℕ, ◌+◌, ◌-◌, ◌*◌, String, Bool, true, ◌&&◌, Option, none, some, str_eq, leb, ◌==◌, if◌then◌else◌,
  when,
}
use algo_trader.Int.{ℤ, pos, leb_ℤ, ltb_ℤ}

abbrev pub second : ℕ
second = 1_000_000

abbrev pub post_scan_reserve : ℕ
post_scan_reserve = 60 * second

abbrev pub guard_setup : ℕ
guard_setup = 3 * second

abbrev pub scan_setup : ℕ
scan_setup = 10 * second

abbrev pub intraday_prestart : ℕ
intraday_prestart = 35 * second

abbrev pub min_useful_scan : ℕ
min_useful_scan = 45 * second

pub record CadenceBudget : Type 0 where
  pub started_at : ℕ
  pub job_timeout : ℕ
  pub legacy_soft_budget : Option ℤ

pub record TickSettings : Type 0 where
  pub scheduler_cadence_soft_budget : Option ℤ
  pub scheduler_job_timeout : ℕ
  pub intraday_active_mover_shortlist_enabled : Bool

-- `None` when deferral is disabled; a timeout of 0 stands for 240 seconds.
unfoldable pub for_tick : TickSettings → ℕ → Option CadenceBudget
for_tick s started_at =
    let budget : CadenceBudget = record {
      started_at = started_at;
      job_timeout = if s.scheduler_job_timeout == 0 then 240 * second else s.scheduler_job_timeout;
      legacy_soft_budget = s.scheduler_cadence_soft_budget;
    } in
    elim s.scheduler_cadence_soft_budget [
      | none ↦ some budget
      | some explicit ↦ if leb_ℤ explicit (pos 0) then none else some budget
    ]

-- `self.scan_seconds_left(prestart) >= MIN_USEFUL_SCAN_SECONDS` at `now`, where what is left is
-- `started_at + job_timeout - POST_SCAN_RESERVE_SECONDS - now - prestart`.
unfoldable pub scan_is_useful : CadenceBudget → ℕ → ℕ → Bool
scan_is_useful b prestart now =
    leb (now + prestart + min_useful_scan + post_scan_reserve) (b.started_at + b.job_timeout)

unfoldable pub prestart_of : TickSettings → String → ℕ
prestart_of s bucket_name =
    guard_setup
    + scan_setup
    + (if str_eq bucket_name "intraday_rotation" && s.intraday_active_mover_shortlist_enabled
        then intraday_prestart
        else 0)

unfoldable pub admits : CadenceBudget → String → TickSettings → ℕ → Bool
unfolding scan_is_useful prestart_of
admits b bucket_name s now = elim b.legacy_soft_budget [
  | some soft ↦ ltb_ℤ (pos (now - b.started_at)) soft
  | none ↦ scan_is_useful b (prestart_of s bucket_name) now
]

unfoldable pub scan_fits : CadenceBudget → ℕ → Bool
unfolding scan_is_useful
scan_fits b now = elim b.legacy_soft_budget [
  | some soft ↦ true
  | none ↦ scan_is_useful b scan_setup now
]
