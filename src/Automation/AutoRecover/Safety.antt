-- ===== src/Automation/AutoRecover/Safety.antt =====
-- When app/automation/auto_recover.py resumes, and what it leaves alone when it does not.
use algo_trader.Prelude.{
  ℕ, ◌<◌, String, ◌≡◌, refl, ◌∙◌, ◌⊎◌, inl, inr, Bool, true, false, Option, none, some, [], arith,
  str_eq, Bool-cases, eq-nil_of_is_empty,
}
use mathlib.Core.Bool.{false≢true}
use algo_trader.Result.{Result, ok, err}
use algo_trader.Dict.{lookup, lookup-insert}
use algo_trader.Text.Prefix.{str_eq-concat-false}
use algo_trader.Text.{is_nonempty, starts_at}
use algo_trader.Automation.{
  paused_key, kill_switch_key, flag, time, is_live, World, reason_key, circuit_reason_key, put,
  text_at, resume, clear_circuit_breaker,
}
use algo_trader.Automation.Blocked.{scan_blockers}
use algo_trader.Automation.Effects.{paused-set_state, killed-set_state, scan_blockers_of_flags}
use algo_trader.Automation.AutoRecover.{
  last_probe_key, RecoverSettings, Probe, Host, resume_count_key_prefix, count_key, number_at,
  too_soon, is_never_resumed, may_probe, recover, judge, notify, attempt, try_auto_recover,
}

-- All that a resume rests on, read before the probe.
pub record MayResume (h : Host) (s : RecoverSettings) (now : ℕ) (w : World) : Type 0 where
  pub enabled : s.paper_auto_recover_circuit_breaker ≡ true
  pub paper_mode : is_live s.base.execution_mode ≡ false
  pub not_real : s.base.enable_real_trading ≡ false
  pub no_switch : s.base.kill_switch_enabled ≡ false
  pub tripped : is_nonempty (text_at circuit_reason_key w) ≡ true
  pub by_breaker : starts_at "circuit breaker:" (text_at reason_key w) ≡ true
  pub resumable : is_never_resumed (text_at circuit_reason_key w) ≡ false
  pub spaced : too_soon s now w ≡ false
  pub quota : number_at (count_key h now) w < s.max_resumes_per_day

may_probe-MayResume :
    (h : Host) (s : RecoverSettings) (now : ℕ) (w : World)
    → may_probe h s now w ≡ true
    → MayResume h s now w
unfolding may_probe
may_probe-MayResume h s now w e = ground arith

abbrev pub IsClean : Result String Probe → Type 0
IsClean (ok p) = (p.status_ok ≡ true) × (p.issues ≡ [])
IsClean (err e) = ⊥

judge-IsClean :
    (h : Host) (now later count : ℕ) (reason : String) (r : Result String Probe) (w : World)
    → (judge h now later count reason (r, w)).0 ≡ true
    → IsClean r × ((judge h now later count reason (r, w)).1 ≡ recover h now later count reason w)
unfolding judge
judge-IsClean h now later count reason (err e) w t = cc
judge-IsClean h now later count reason (ok p) w t = ground (arith, eq-nil_of_is_empty p.issues)

judge_unclean :
    (h : Host) (now later count : ℕ) (reason : String) (r : Result String Probe) (w : World)
    → (judge h now later count reason (r, w)).0 ≡ false
    → (judge h now later count reason (r, w)).1.runtime ≡ w.runtime
unfolding judge
judge_unclean h now later count reason (err e) w t = refl
judge_unclean h now later count reason (ok p) w t = ground arith

attempt-MayResume :
    (h : Host) (s : RecoverSettings) (now later : ℕ) (w : World)
    (reconcile : World → Result String Probe × World)
    → (attempt h s now later reconcile w).0 ≡ true
    → let (report, w') = reconcile (put last_probe_key (time now) w) in
      MayResume h s now w
      × IsClean report
      × ((attempt h s now later reconcile w).1
          ≡ recover h now later (number_at (count_key h now) w) (text_at circuit_reason_key w) w')
unfolding attempt
attempt-MayResume h s now later w reconcile t = elim (Bool-cases (may_probe h s now w)) [
  | inl e ↦
      let (report, w') = reconcile (put last_probe_key (time now) w) in
      let found =
        judge-IsClean h now later (number_at (count_key h now) w) (text_at circuit_reason_key w)
          report w' (rw (e, attempt) at t) in
      rw (e, attempt) (may_probe-MayResume h s now w e, found.0, found.1)
  | inr e ↦ absurd (false≢true (rw (e, attempt) at t))
]

attempt_refused :
    (h : Host) (s : RecoverSettings) (now later : ℕ) (w : World)
    (reconcile : World → Result String Probe × World)
    → (attempt h s now later reconcile w).0 ≡ false
    → ((attempt h s now later reconcile w).1 ≡ w)
      ⊎ ((attempt h s now later reconcile w).1.runtime
          ≡ (reconcile (put last_probe_key (time now) w)).1.runtime)
unfolding attempt
attempt_refused h s now later w reconcile t = elim (Bool-cases (may_probe h s now w)) [
  | inl e ↦
      let (report, w') = reconcile (put last_probe_key (time now) w) in
      inr (rw (e, attempt) (judge_unclean h now later _ _ report w' (rw (e, attempt) at t)))
  | inr e ↦ inl (rw (e, attempt))
]

pub try_auto_recover-some :
    (h : Host) (s : RecoverSettings) (now later : ℕ) (w : World)
    (reconcile : World → Result String Probe × World)
    → h.reconcile ≡ some reconcile
    → try_auto_recover h s now later w ≡ attempt h s now later reconcile w
unfolding try_auto_recover
try_auto_recover-some h s now later w reconcile e = rw (e, try_auto_recover)

pub runtime-notify : (o : Option Bool) (w : World) → (notify o w).runtime ≡ w.runtime
runtime-notify none w = refl
runtime-notify (some true) w = refl
runtime-notify (some false) w = refl

paused_key-ne-count_key : (h : Host) (now : ℕ) → str_eq paused_key (count_key h now) ≡ false
unfolding starts_at
paused_key-ne-count_key h now =
    str_eq-concat-false paused_key resume_count_key_prefix (h.day now) refl

kill_switch_key-ne-count_key :
    (h : Host) (now : ℕ) → str_eq kill_switch_key (count_key h now) ≡ false
unfolding starts_at
kill_switch_key-ne-count_key h now =
    str_eq-concat-false kill_switch_key resume_count_key_prefix (h.day now) refl

-- The two flags after a recovery: the count's key is neither of theirs.
flags-recover :
    (h : Host) (now later count : ℕ) (reason : String) (w : World)
    → let r = (recover h now later count reason w).runtime in
      (lookup paused_key r ≡ some (flag false)) × (lookup kill_switch_key r ≡ some (flag false))
unfolding recover resume
flags-recover h now later count reason w = rw (runtime-notify h.notifier) (
  rw lookup-insert (
      rw (paused_key-ne-count_key h now)
        (paused-set_state later false (some false) _ (clear_circuit_breaker w))),
  rw lookup-insert (
      rw (kill_switch_key-ne-count_key h now)
        (killed-set_state later false (some false) _ (clear_circuit_breaker w))),
)

module _ (h : Host) (s : RecoverSettings) (now later : ℕ) (w : World) where
  -- Trading resumes only where it may (paper mode, no real trading, no kill switch in the settings, a
  -- tripped breaker that paused the bot, none of the reasons that are never resumed, the interval
  -- passed, the day's quota not used up), and after a probe that returned a clean report.
  pub try_auto_recover-MayResume :
      (reconcile : World → Result String Probe × World)
      → h.reconcile ≡ some reconcile
      → (try_auto_recover h s now later w).0 ≡ true
      → let (report, w') = reconcile (put last_probe_key (time now) w) in
        MayResume h s now w
        × IsClean report
        × ((try_auto_recover h s now later w).1
            ≡ recover h now later (number_at (count_key h now) w) (text_at circuit_reason_key w) w')
  try_auto_recover-MayResume reconcile given t =
      let e = try_auto_recover-some h s now later w reconcile given in
      rw e (attempt-MayResume h s now later w reconcile (rw e at t))

  -- If it does not resume, the runtime state is untouched, or is what the reconciliation made of it
  -- after the time of the probe was written.
  pub try_auto_recover_refused :
      (reconcile : World → Result String Probe × World)
      → h.reconcile ≡ some reconcile
      → (try_auto_recover h s now later w).0 ≡ false
      → ((try_auto_recover h s now later w).1 ≡ w)
        ⊎ ((try_auto_recover h s now later w).1.runtime
            ≡ (reconcile (put last_probe_key (time now) w)).1.runtime)
  try_auto_recover_refused reconcile given t =
      let e = try_auto_recover-some h s now later w reconcile given in
      rw e (attempt_refused h s now later w reconcile (rw e at t))

  -- After a resume no scan is blocked, whatever the reconciliation and the notifier did, and whoever
  -- had paused the bot or set the kill switch of the runtime state before: that is lifted as well.
  pub try_auto_recover-unblocks :
      (reconcile : World → Result String Probe × World)
      → h.reconcile ≡ some reconcile
      → (try_auto_recover h s now later w).0 ≡ true
      → scan_blockers s.base (try_auto_recover h s now later w).1 ≡ []
  try_auto_recover-unblocks reconcile given t =
      let (may, _, effect) = try_auto_recover-MayResume reconcile given t in
      let (p, k) =
        flags-recover h now later (number_at (count_key h now) w) (text_at circuit_reason_key w)
          (reconcile (put last_probe_key (time now) w)).1 in
      rw effect (scan_blockers_of_flags s.base _ false false p k ∙ rw may.no_switch)
