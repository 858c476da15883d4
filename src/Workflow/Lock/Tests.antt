-- ===== src/Workflow/Lock/Tests.antt =====
-- Runs of the locks of app/workflow/cadence_budget.py.
use algo_trader.Prelude.{◌+◌, ◌*◌, ◌≤◌, ◌<◌, ◌≡◌, refl, ◌⊎◌, true, false, some, [], ◌∷◌, arith, All}
use algo_trader.Dict.{Dict}
use algo_trader.Workflow.Lock.{
  LockValue, aware, LockSettings, minute, waited, default_minutes, stale_lock_minutes, lock_time,
  acquire_workflow_lock, release_workflow_lock,
}
use algo_trader.Workflow.Lock.Exclusion.{
  acquiring, releasing, attempts, attempts-keep, acquire-release-acquire, stale_lock_minutes-covers,
}

abbrev settings : LockSettings
settings = record {
  workflow_lock_timeout_minutes = 45;
  premarket_deep_scan_enabled = true;
  scheduler_job_timeout = 240_000_000;
  scheduler_overlap_grace = 120_000_000;
}

-- Four minutes and two of grace: the scan's lock goes stale after seven.
seven_minutes : stale_lock_minutes settings "premarket_scan" ≡ 7
unfolding stale_lock_minutes
seven_minutes = refl

abbrev locked : Dict LockValue
locked = ("lock", aware 1_000) ∷ []

early : 2_000 < 1_000 + stale_lock_minutes settings "scan" * minute
unfolding stale_lock_minutes
early = omega arith

attempts-keep_example :
    let others = acquiring 2_000 2_001 ∷ releasing 900 ∷ [] in
    ((attempts settings "scan" "lock" others locked).1 ≡ locked)
    × All (λ taken. taken ≡ false) (attempts settings "scan" "lock" others locked).0
attempts-keep_example =
    attempts-keep settings "scan" "lock" 1_000 (acquiring 2_000 2_001 ∷ releasing 900 ∷ []) locked
      refl (early, (omega arith, tt))

acquire-release-acquire_example :
    (acquire_workflow_lock settings "scan" "lock" 9 10 (
      release_workflow_lock "lock"
        (some 6)
        (acquire_workflow_lock settings "scan" "lock" 5 6 []).1)).0
    ≡ some 10
unfolding acquire_workflow_lock lock_time
acquire-release-acquire_example = acquire-release-acquire settings "scan" "lock" 5 6 9 10 [] refl

stale_lock_minutes-covers_example :
    (stale_lock_minutes settings "premarket_scan" ≤ default_minutes settings)
    × ((stale_lock_minutes settings "premarket_scan" ≡ default_minutes settings)
        ⊎ (waited settings + minute ≤ stale_lock_minutes settings "premarket_scan" * minute))
stale_lock_minutes-covers_example = stale_lock_minutes-covers settings "premarket_scan" "lock"
