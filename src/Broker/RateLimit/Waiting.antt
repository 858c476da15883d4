-- ===== src/Broker/RateLimit/Waiting.antt =====
-- app/broker/etoro_rate_limit.py, the loop of `wait_for_etoro_slot`, where no other call of the account
-- lies between its passes.
use algo_trader.Prelude.{
  ℕ, zero, suc, ◌+◌, ◌-◌, ◌*◌, ◌≤◌, ◌<◌, String, ◌≡◌, refl, sym, ap, ◌∙◌, inl, inr, true, false,
  Option, some, arith, ltb, leb, Bool-cases,
}
use mathlib.Core.Path.{subst}
use algo_trader.Dict.{Dict}
use algo_trader.Broker.RateLimit.{
  Bucket, bucket, Pass, pass_at, granted, waiting, after_pass, try_slot, unless_waiting, sleep_of,
  longest_sleep, wait_for_etoro_slot,
}
use algo_trader.Broker.RateLimit.Accounts.{bucket-set_default, bucket-insert_self}

le_of_leb : (a b : ℕ) → leb a b ≡ true → a ≤ b
le_of_leb a b e = ground arith

lt_of_leb : (a b : ℕ) → leb a b ≡ false → b < a
lt_of_leb a b e = ground arith

-- A sleep ends the wait, or takes two seconds off it.
after_sleep :
    (due now next fuel : ℕ)
    → now < due
    → now + sleep_of (due - now) ≤ next
    → due + longest_sleep ≤ now + suc fuel * longest_sleep
    → (0 < fuel) × (due + longest_sleep ≤ next + fuel * longest_sleep) × (now ≤ next)
after_sleep due now next fuel early slept enough =
    elim (Bool-cases (ltb longest_sleep (due - now))) [
      | inl long ↦
          let full : now + longest_sleep ≤ next = rw long at slept in
          (
            omega (arith, full, enough, early),
            omega (arith, full, enough, early),
            omega (arith, full),
          )
      | inr short ↦
          let rest : now + (due - now) ≤ next = rw short at slept in
          (
            omega (arith, rest, enough, early),
            omega (arith, rest, enough, early),
            omega (arith, rest),
          )
    ]

on_time : (due now stamp : ℕ) → stamp ≡ now → due ≤ now → due ≤ stamp
on_time due now stamp e h = omega arith

le_trans : {a b c : ℕ} → a ≤ b → b ≤ c → a ≤ c
le_trans h k = omega arith

module _ (pass : Pass) (d : Dict Bucket) (rest : Option Pass × Dict Bucket) where
  unless_waiting-granted : pass ≡ granted → unless_waiting pass d rest ≡ (some granted, d)
  unfolding unless_waiting
  unless_waiting-granted e = rw e refl

  unless_waiting-waiting : (left : ℕ) → pass ≡ waiting left → unless_waiting pass d rest ≡ rest
  unfolding unless_waiting
  unless_waiting-waiting left e = rw e refl

module _ (min_interval : ℕ) (key : String) where
  module _ (now : ℕ) (d : Dict Bucket) (b : Bucket) (own : bucket key d ≡ b)
      (free : b.blocked_until ≤ now) where
    held : ltb now b.blocked_until ≡ false
    held = ground arith

    -- A pass at or after the interval is granted and stamped.
    try_slot-granted :
        b.last_request_at + min_interval ≤ now
        → ((try_slot min_interval key now d).0 ≡ granted)
          × ((bucket key (try_slot min_interval key now d).1).last_request_at ≡ now)
    unfolding try_slot pass_at after_pass
    try_slot-granted late =
        let due : leb (b.last_request_at + min_interval) now ≡ true = ground arith in
        let same = bucket-set_default key key d ∙ own in
        rw (same, held, due)
          (refl, ap (λ (x : Bucket). x.last_request_at) (bucket-insert_self key _ _))

    -- An earlier pass sleeps and leaves the account as it is.
    try_slot-waiting :
        now < b.last_request_at + min_interval
        → ((try_slot min_interval key now d).0 ≡ waiting (b.last_request_at + min_interval - now))
          × (bucket key (try_slot min_interval key now d).1 ≡ b)
    unfolding try_slot pass_at after_pass
    try_slot-waiting early =
        let due : leb (b.last_request_at + min_interval) now ≡ false = ground arith in
        let same = bucket-set_default key key d ∙ own in rw (same, held, due) (refl, same)

  -- With no cooldown of the account, sleeps that last no less than asked, and no other call of the
  -- account between the passes, the loop ends once it may make a pass more than the two-second sleeps
  -- that the rest of the minimal interval takes: the request is granted, and is stamped no earlier than
  -- the interval after the one before.
  pub wait_for_etoro_slot-granted :
      (reading : ℕ → ℕ) (fuel i : ℕ) (d : Dict Bucket) (b : Bucket)
      → bucket key d ≡ b
      → b.blocked_until ≤ reading i
      → ((j : ℕ)
          → reading j + sleep_of (b.last_request_at + min_interval - reading j) ≤ reading (suc j))
      → 0 < fuel
      → b.last_request_at + min_interval + longest_sleep ≤ reading i + fuel * longest_sleep
      → let (end, d') = wait_for_etoro_slot fuel min_interval key reading i d in
        (end ≡ some granted) × (b.last_request_at + min_interval ≤ (bucket key d').last_request_at)
  unfolding wait_for_etoro_slot
  wait_for_etoro_slot-granted reading zero i d b own free slept pos enough = absurd (omega arith)
  wait_for_etoro_slot-granted reading (suc fuel) i d b own free slept pos enough =
      let now = try_slot min_interval key (reading i) d in
      let later = wait_for_etoro_slot fuel min_interval key reading (suc i) now.1 in
      elim (Bool-cases (leb (b.last_request_at + min_interval) (reading i))) [
        | inl late ↦
            let (this, stamped) = try_slot-granted (reading i) d b own free (le_of_leb _ _ late) in
            subst Ends (sym (unless_waiting-granted now.0 now.1 later this)) (
              refl,
              on_time (b.last_request_at + min_interval) (reading i) _ stamped (le_of_leb _ _ late),
            )
        | inr early ↦
            let (this, kept) = try_slot-waiting (reading i) d b own free (lt_of_leb _ _ early) in
            let (pos', enough', on) =
              after_sleep (b.last_request_at + min_interval) (reading i) (reading (suc i)) fuel
                (lt_of_leb _ _ early) (slept i) enough in
            subst Ends (sym (unless_waiting-waiting now.0 now.1 later _ this)) (
              wait_for_etoro_slot-granted reading fuel (suc i) now.1 b kept (le_trans free on) slept
                pos' enough')
      ]
    where
      Ends : Option Pass × Dict Bucket → Type 0
      Ends m =
          (m.0 ≡ some granted)
          × (b.last_request_at + min_interval ≤ (bucket key m.1).last_request_at)
