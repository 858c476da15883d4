-- ===== src/Workflow/Lock/Exclusion.antt =====
-- What the locks of app/workflow/cadence_budget.py keep apart.
use algo_trader.Prelude.{
  ℕ, ◌+◌, ◌*◌, ◌/◌, ◌≤◌, ◌<◌, String, ◌≡◌, refl, ◌≢◌, ◌⊎◌, inl, inr, Bool, true, false, ◌&&◌,
  Option, none, some, List, [], ◌∷◌, arith, str_eq, eq_refl, ltb, ◌==◌, if◌then◌else◌, Bool-cases,
  is_some, All,
}
use algo_trader.Dict.{Dict, lookup, insert, lookup-insert}
use algo_trader.Workflow.Lock.{
  LockValue, blank, aware, LockSettings, minute, waited, default_minutes, stale_lock_minutes,
  lock_time, is_held, acquire_workflow_lock, is_foreign, release_workflow_lock,
}

-- What the other runs of a task do.
pub data Attempt : Type 0 where
  acquiring : ℕ → ℕ → Attempt
  releasing : ℕ → Attempt

module _ (s : LockSettings) (task key : String) where
  unfoldable pub attempt : Attempt → Dict LockValue → Option ℕ × Dict LockValue
  attempt (acquiring now later) d = acquire_workflow_lock s task key now later d
  attempt (releasing stamp) d = (none, release_workflow_lock key (some stamp) d)

  -- Attempts in order: did each acquire the lock, and the state at the end.
  unfoldable pub attempts : List Attempt → Dict LockValue → List Bool × Dict LockValue
  unfolding attempt
  attempts [] d = ([], d)
  attempts (a ∷ others) d =
      let (taken, d') = attempt a d in
      let (rest, last) = attempts others d' in (is_some taken ∷ rest, last)

  -- An attempt of another run while the lock of the run that started at `t` is not stale.
  abbrev pub IsOther : ℕ → Attempt → Type 0
  IsOther t (acquiring now later) = now < t + stale_lock_minutes s task * minute
  IsOther t (releasing stamp) = t ≢ stamp

  attempt-keeps :
      (t : ℕ) (a : Attempt) (d : Dict LockValue)
      → lookup key d ≡ some (aware t)
      → IsOther t a
      → attempt a d ≡ (none, d)
  unfolding attempt acquire_workflow_lock release_workflow_lock lock_time is_foreign
  attempt-keeps t (acquiring now later) d held early =
      let e : ltb now (t + stale_lock_minutes s task * minute) ≡ true = ground (arith, early) in
      rw (held, e)
  attempt-keeps t (releasing stamp) d held other =
      let e : (t == stamp) ≡ false = ground (arith, other) in rw (held, e)

  -- While the lock of a run is not stale, no attempt of another run takes it or clears it: neither
  -- an acquisition, nor the release of a run that it outlived.
  pub attempts-keep :
      (t : ℕ) (others : List Attempt) (d : Dict LockValue)
      → lookup key d ≡ some (aware t)
      → All (IsOther t) others
      → ((attempts others d).1 ≡ d) × All (λ taken. taken ≡ false) (attempts others d).0
  unfolding attempts
  attempts-keep t [] d held apart = (refl, tt)
  attempts-keep t (a ∷ others) d held (other, apart) =
      rw (attempt-keeps t a d held other)
        (let (same, none_taken) = attempts-keep t others d held apart in (same, (refl, none_taken)))

  free-release_own :
      (later : ℕ) (d : Dict LockValue)
      → lookup key (release_workflow_lock key (some later) (insert key (aware later) d))
        ≡ some blank
  unfolding release_workflow_lock is_foreign lock_time
  free-release_own later d =
      let own : (later == later) ≡ true = ground arith in
      rw (lookup-insert, eq_refl, own) (rw (lookup-insert, eq_refl))

  -- A run that took the lock frees it by its release: the next acquisition succeeds, whenever it
  -- comes, with its own stamp.
  pub acquire-release-acquire :
      (now later now' later' : ℕ) (d : Dict LockValue)
      → (acquire_workflow_lock s task key now later d).0 ≡ some later
      → let d' = (acquire_workflow_lock s task key now later d).1 in
        (acquire_workflow_lock s task key now' later' (release_workflow_lock key (some later) d')).0
        ≡ some later'
  unfolding acquire_workflow_lock lock_time
  acquire-release-acquire now later now' later' d taken =
      elim (Bool-cases (is_held s task now (lock_time false (lookup key d)))) [
        | inl held ↦ let refused : none ≡ some later = rw held at taken in cc
        | inr free ↦ rw (free, free-release_own later d)
      ]

  -- A lock never goes stale later than after the default, and, if earlier, then only a minute or more
  -- after the longest time for which a run can be waited.
  pub stale_lock_minutes-covers :
      (stale_lock_minutes s task ≤ default_minutes s)
      × ((stale_lock_minutes s task ≡ default_minutes s)
          ⊎ (waited s + minute ≤ stale_lock_minutes s task * minute))
  unfolding stale_lock_minutes
  stale_lock_minutes-covers =
      covers (str_eq task "premarket_scan" && s.premarket_deep_scan_enabled) (waited s)
        (default_minutes s)
    where
      covers :
          (b : Bool) (w d : ℕ)
          → let short = (w + 59_999_999) / minute + 1 in
            let m = if b then if ltb short d then short else d else d in
            (m ≤ d) × ((m ≡ d) ⊎ (w + minute ≤ m * minute))
      covers true w d = elim (Bool-cases (ltb ((w + 59_999_999) / minute + 1) d)) [
        | inl below ↦ rw below (ground (arith, below), inr (omega arith))
        | inr above ↦ rw above (omega arith, inl refl)
      ]
      covers false w d = (omega arith, inl refl)
