-- ===== src/Automation/AutoRecover/Daily.antt =====
-- The daily quota of app/automation/auto_recover.py over any sequence of calls.
use algo_trader.Prelude.{
  eq_refl, ℕ, suc, ◌+◌, ◌-◌, ◌≤◌, ◌<◌, String, ◌≡◌, refl, ◌∙◌, ◌⊎◌, inl, inr, Bool, true, false,
  Option, none, some, List, [], ◌∷◌, arith, if◌then◌else◌, Bool-cases, All,
}
use algo_trader.Result.{Result}
use algo_trader.Dict.{lookup, lookup-insert}
use algo_trader.Text.{starts_at, concat}
use algo_trader.Text.Prefix.{concat-str_eq-false}
use algo_trader.Automation.{
  Value, text, time, number, Client, World, paused_key, kill_switch_key, reason_key, updated_at_key,
  circuit_reason_key, account_verified_key, put, flag, reason_or, set_state, pause, resume,
  enable_kill_switch, trip_circuit_breaker, clear_circuit_breaker, set_account_verified,
}
use algo_trader.Automation.Effects.{runtime-enable_kill_switch}
use algo_trader.Automation.AutoRecover.{
  last_probe_key, RecoverSettings, Probe, Host, resume_count_key_prefix, count_key, number_at,
  recover, try_auto_recover,
}
use algo_trader.Automation.AutoRecover.Safety.{
  runtime-notify, try_auto_recover-MayResume, try_auto_recover_refused,
}

-- What happens on a day, in order: a call of the scheduler, with its two readings of the clock, or a
-- call of the automation service by anyone else, so that the breaker can trip again after a resume.
pub data Act : Type 0 where
  recovering : ℕ → ℕ → Act
  tripping : Option (List Client) → ℕ → String → Bool → Act
  killing : Option (List Client) → ℕ → String → Bool → Act
  pausing : ℕ → String → Act
  resuming : ℕ → String → Act
  clearing : Act
  verifying : Bool → Act

-- The state after one of them, and whether the bot resumed itself.
unfoldable pub act : Host → RecoverSettings → Act → World → Bool × World
act h s (recovering now later) w = try_auto_recover h s now later w
act h s (tripping clients now reason stop) w =
    (false, trip_circuit_breaker s.base clients now reason stop w)
act h s (killing clients now reason stop) w =
    (false, enable_kill_switch s.base clients now reason stop w)
act h s (pausing now reason) w = (false, pause now reason w)
act h s (resuming now reason) w = (false, resume now reason w)
act h s clearing w = (false, clear_circuit_breaker w)
act h s (verifying verified) w = (false, set_account_verified verified w)

-- How often the bot resumed itself, and the state after all of them.
unfoldable pub run_acts : Host → RecoverSettings → List Act → World → ℕ × World
unfolding act
run_acts h s [] w = (0, w)
run_acts h s (a ∷ acts) w =
    let (done, w') = act h s a w in
    let (k, last) = run_acts h s acts w' in (if done then suc k else k, last)

-- The scheduler's calls fall on the day d.
abbrev pub OnDay : Host → String → Act → Type 0
OnDay h d (recovering now later) = h.day now ≡ d
OnDay h d _ = Unit

-- The reconciliation leaves the day's count alone.
abbrev pub KeepsCount : (World → Result String Probe × World) → Type 0
KeepsCount reconcile =
    (d : String) (w : World)
    → number_at (concat resume_count_key_prefix d) (reconcile w).1
      ≡ number_at (concat resume_count_key_prefix d) w

number_at_congr : (k : String) (v w : World) → v.runtime ≡ w.runtime → number_at k v ≡ number_at k w
unfolding number_at
number_at_congr k v w e = rw (e, number_at)

-- A write under another key leaves the day's count.
number_at-put :
    (d k : String) (v : Value) (w : World)
    → starts_at resume_count_key_prefix k ≡ false
    → number_at (concat resume_count_key_prefix d) (put k v w)
      ≡ number_at (concat resume_count_key_prefix d) w
unfolding number_at
number_at-put d k v w apart =
    let same =
      rw (concat-str_eq-false k resume_count_key_prefix d apart) at
        (lookup-insert k (concat resume_count_key_prefix d) v w.runtime) in
    rw (same, number_at)

number_at-probe :
    (d : String) (now : ℕ) (w : World)
    → number_at (concat resume_count_key_prefix d) (put last_probe_key (time now) w)
      ≡ number_at (concat resume_count_key_prefix d) w
unfolding starts_at
number_at-probe d now w = number_at-put d last_probe_key (time now) w refl

number_at-set_state :
    (d : String) (now : ℕ) (paused : Bool) (switch : Option Bool) (reason : String) (w : World)
    → number_at (concat resume_count_key_prefix d) (set_state now paused switch reason w)
      ≡ number_at (concat resume_count_key_prefix d) w
unfolding set_state starts_at
number_at-set_state d now paused none reason w =
    number_at_congr _ _ _ refl
    ∙ number_at-put d updated_at_key (time now) _ refl
    ∙ number_at-put d reason_key (text reason) _ refl
    ∙ number_at-put d paused_key (flag paused) w refl
number_at-set_state d now paused (some k) reason w =
    number_at_congr _ _ _ refl
    ∙ number_at-put d updated_at_key (time now) _ refl
    ∙ number_at-put d reason_key (text reason) _ refl
    ∙ number_at-put d kill_switch_key (flag k) _ refl
    ∙ number_at-put d paused_key (flag paused) w refl

number_at-kill :
    (d : String) (s : RecoverSettings) (clients : Option (List Client)) (now : ℕ) (reason : String)
    (stop : Bool) (w : World)
    → number_at
        (concat resume_count_key_prefix d)
        (enable_kill_switch s.base clients now reason stop w)
      ≡ number_at (concat resume_count_key_prefix d) w
number_at-kill d s clients now reason stop w =
    number_at_congr _ _ _ (runtime-enable_kill_switch s.base clients now reason stop w)
    ∙ number_at-set_state d now true (some true) (reason_or reason "kill switch enabled") w

number_at_of_lookup :
    (k : String) (n : ℕ) (w : World) → lookup k w.runtime ≡ some (number n) → number_at k w ≡ n
unfolding number_at
number_at_of_lookup k n w e = rw (e, number_at)

number_at-recover :
    (h : Host) (now later count : ℕ) (reason : String) (w : World)
    → number_at (count_key h now) (recover h now later count reason w) ≡ count + 1
unfolding recover
number_at-recover h now later count reason w =
    number_at_of_lookup (count_key h now) (count + 1) (recover h now later count reason w)
      (rw (runtime-notify h.notifier, lookup-insert, eq_refl))

module _ (h : Host) (s : RecoverSettings) (reconcile : World → Result String Probe × World) where
  -- One call: a resume counts one and stays within the quota, any other call counts nothing.
  step_count :
      (now later : ℕ) (w : World)
      → h.reconcile ≡ some reconcile
      → KeepsCount reconcile
      → let (done, w') = try_auto_recover h s now later w in
        let n = number_at (count_key h now) w in
        let n' = number_at (count_key h now) w' in
        ((done ≡ true) × (n' ≡ n + 1) × (n < s.max_resumes_per_day)) ⊎ ((done ≡ false) × (n' ≡ n))
  step_count now later w given keeps = elim (Bool-cases (try_auto_recover h s now later w).0) [
    | inl done ↦
        let (may, _, effect) = try_auto_recover-MayResume h s now later w reconcile given done in
        inl (done, rw effect (number_at-recover h now later _ _ _), may.quota)
    | inr refused ↦ inr (
      refused,
      elim (try_auto_recover_refused h s now later w reconcile given refused) [
        | inl same ↦ rw same
        | inr probed ↦
            number_at_congr (count_key h now) _ _ probed
            ∙ keeps (h.day now) _
            ∙ number_at-probe (h.day now) now w
      ],
    )
  ]

  -- One event of the day d.
  act_step :
      (d : String) (a : Act) (w : World)
      → h.reconcile ≡ some reconcile
      → KeepsCount reconcile
      → OnDay h d a
      → let (done, w') = act h s a w in
        let n = number_at (concat resume_count_key_prefix d) w in
        let n' = number_at (concat resume_count_key_prefix d) w' in
        ((done ≡ true) × (n' ≡ n + 1) × (n < s.max_resumes_per_day)) ⊎ ((done ≡ false) × (n' ≡ n))
  unfolding act pause resume clear_circuit_breaker set_account_verified trip_circuit_breaker
      starts_at
  act_step d (recovering now later) w given keeps today =
      rw today at (step_count now later w given keeps)
  act_step d (tripping clients now reason stop) w given keeps today = inr (
    refl,
    number_at-kill d s clients now (concat "circuit breaker: " reason) stop _
        ∙ number_at-put d circuit_reason_key (text reason) w refl,
  )
  act_step d (killing clients now reason stop) w given keeps today =
      inr (refl, number_at-kill d s clients now reason stop w)
  act_step d (pausing now reason) w given keeps today =
      inr (refl, number_at-set_state d now true none _ w)
  act_step d (resuming now reason) w given keeps today =
      inr (refl, number_at-set_state d now false (some false) _ w)
  act_step d clearing w given keeps today =
      inr (refl, number_at-put d circuit_reason_key (text "") w refl)
  act_step d (verifying verified) w given keeps today =
      inr (refl, number_at-put d account_verified_key (flag verified) w refl)

  -- On one day the bot resumes itself at most `max_resumes_per_day` times, less those already
  -- counted, however often the scheduler calls, the breaker trips again and anyone else pauses, resumes
  -- or stops trading, if the reconciliation leaves the count alone.
  pub run_acts-le-quota :
      (d : String) (acts : List Act) (w : World)
      → h.reconcile ≡ some reconcile
      → KeepsCount reconcile
      → All (OnDay h d) acts
      → (run_acts h s acts w).0
        ≤ s.max_resumes_per_day - number_at (concat resume_count_key_prefix d) w
  unfolding run_acts
  run_acts-le-quota d [] w given keeps same = omega arith
  run_acts-le-quota d (a ∷ acts) w given keeps (today, same) =
      let rest = run_acts-le-quota d acts (act h s a w).1 given keeps same in
      elim (act_step d a w given keeps today) [
        | inl (done, more, quota) ↦ rw (done) (omega (arith, rest, more, quota))
        | inr (refused, kept) ↦ rw (refused) (omega (arith, rest, kept))
      ]
