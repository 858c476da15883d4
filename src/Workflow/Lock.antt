-- ===== src/Workflow/Lock.antt =====
-- app/workflow/cadence_budget.py: the locks that keep two runs of a workflow task apart. A stored text
-- is what it encodes; times and durations are microseconds, and settings are not negative.
pub mod Exclusion
pub mod Tests
use algo_trader.Prelude.{
  ℕ, ◌+◌, ◌*◌, ◌/◌, String, Bool, true, false, not, ◌&&◌, Option, none, some, str_eq, ltb, ◌==◌,
  if◌then◌else◌,
}
use algo_trader.Dict.{Dict, lookup, insert}

-- What stands in the runtime state under a lock's key. The stamp that this code writes is `aware`.
pub data LockValue : Type 0 where
  blank : LockValue
  aware : ℕ → LockValue
  naive : ℕ → LockValue
  unreadable : String → LockValue

pub record LockSettings : Type 0 where
  pub workflow_lock_timeout_minutes : ℕ
  pub premarket_deep_scan_enabled : Bool
  pub scheduler_job_timeout : ℕ
  pub scheduler_overlap_grace : ℕ

abbrev pub minute : ℕ
minute = 60_000_000

-- How long a run can be waited for; a timeout of 0 stands for 240 seconds.
abbrev pub waited : LockSettings → ℕ
waited s =
    (if s.scheduler_job_timeout == 0 then 240_000_000 else s.scheduler_job_timeout)
    + s.scheduler_overlap_grace

abbrev pub default_minutes : LockSettings → ℕ
default_minutes s =
    if ltb s.workflow_lock_timeout_minutes 1 then 1 else s.workflow_lock_timeout_minutes

unfoldable pub stale_lock_minutes : LockSettings → String → ℕ
stale_lock_minutes s task =
    let short = (waited s + 59_999_999) / minute + 1 in
    if str_eq task "premarket_scan" && s.premarket_deep_scan_enabled
    then if ltb short (default_minutes s) then short else default_minutes s
    else default_minutes s

unfoldable pub lock_time : Bool → Option LockValue → Option ℕ
lock_time strict none = none
lock_time strict (some blank) = none
lock_time strict (some (aware t)) = some t
lock_time strict (some (naive t)) = if strict then none else some t
lock_time strict (some (unreadable s)) = none

-- Does a run that started at `t` hold the lock still at `now`?
abbrev pub is_held : LockSettings → String → ℕ → Option ℕ → Bool
is_held s task now none = false
is_held s task now (some t) = ltb now (t + stale_lock_minutes s task * minute)

-- `now` and `later` are the two readings of the clock; the stamp is returned. The code reads the key and
-- then sets it, with nothing that keeps another run out in between; this is a call that is not
-- interrupted.
unfoldable pub acquire_workflow_lock :
    LockSettings → String → String → ℕ → ℕ → Dict LockValue → Option ℕ × Dict LockValue
unfolding lock_time
acquire_workflow_lock s task key now later d =
    if is_held s task now (lock_time false (lookup key d))
    then (none, d)
    else (some later, insert key (aware later) d)

-- Is the lock another run's? `current not in (stamp, None, "") and _lock_time(current, strict=True)`
unfoldable pub is_foreign : Option ℕ → Option LockValue → Bool
unfolding lock_time
is_foreign none current = false
is_foreign (some stamp) current = elim (lock_time true current) [
  | none ↦ false
  | some t ↦ not (t == stamp)
]

unfoldable pub release_workflow_lock : String → Option ℕ → Dict LockValue → Dict LockValue
unfolding is_foreign
release_workflow_lock key stamp d =
    if is_foreign stamp (lookup key d) then d else insert key blank d
