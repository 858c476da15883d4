-- ===== src/Broker/RateLimit/Accounts.antt =====
-- What the throttle of app/broker/etoro_rate_limit.py gives each account, in any interleaving of calls.
use algo_trader.Prelude.{
  ℕ, ◌+◌, ◌≤◌, String, ◌≡◌, refl, sym, ap, ◌∙◌, inl, inr, Bool, false, List, [], ◌∷◌, ◌++◌, arith,
  str_eq, eq_iff, ltb, leb, if◌then◌else◌, Bool-cases, Option-cases, when, eq_refl,
}
use mathlib.Core.Bool.{false≢true}
use algo_trader.Dict.{Dict, lookup, insert, lookup-insert}
use algo_trader.Broker.RateLimit.{
  Bucket, new_bucket, bucket, set_default, Pass, pass_at, after_pass, blocked, rate_limited,
  granted, waiting, try_slot, is_rate_limited, cooldown_of, limit_reason, mark_etoro_rate_limited,
}

pub bucket-insert :
    (j k : String) (b : Bucket) (d : Dict Bucket)
    → bucket j (insert k b d) ≡ (if str_eq j k then b else bucket j d)
bucket-insert j k b d =
    rw (lookup-insert k j b d) (elim (Bool-cases (str_eq j k)) [ inl e ↦ rw e | inr e ↦ rw e ])

bucket-insert_other :
    (j k : String) (b : Bucket) (d : Dict Bucket)
    → str_eq j k ≡ false
    → bucket j (insert k b d) ≡ bucket j d
bucket-insert_other j k b d e = rw (bucket-insert j k b d, e)

pub bucket-insert_self : (k : String) (b : Bucket) (d : Dict Bucket) → bucket k (insert k b d) ≡ b
bucket-insert_self k b d = rw (bucket-insert k k b d, eq_refl)

pub bucket-set_default : (j k : String) (d : Dict Bucket) → bucket j (set_default k d) ≡ bucket j d
unfolding set_default
bucket-set_default j k d = elim (Option-cases (lookup k d)) [
  | inr (b, e) ↦ rw e
  | inl e ↦ rw e (elim (Bool-cases (str_eq j k)) [
    | inr other ↦ bucket-insert_other j k new_bucket d other
    | inl own ↦ let same = (eq_iff j k).0 own in rw (same, e) (bucket-insert_self k new_bucket d)
  ])
]

late_of_granted :
    (min_interval now : ℕ) (b : Bucket)
    → pass_at min_interval b now ≡ granted
    → b.last_request_at + min_interval ≤ now
unfolding pass_at
late_of_granted min_interval now b e = elim (Bool-cases (ltb now b.blocked_until)) [
  | inl held ↦ let other : rate_limited _ _ ≡ granted = rw held at e in cc
  | inr free ↦ elim (Bool-cases (leb (b.last_request_at + min_interval) now)) [
    | inl late ↦ ground (arith, late)
    | inr early ↦ let other : waiting _ ≡ granted = rw (free, early) at e in cc
  ]
]

mark_bucket :
    (j k : String) (until : ℕ) (reason : String) (d : Dict Bucket)
    → let b = bucket j (insert k (blocked until reason (bucket k d)) (set_default k d)) in
      (b.last_request_at ≡ (bucket j d).last_request_at) × (str_eq j k ≡ false → b ≡ bucket j d)
mark_bucket j k until reason d = elim (Bool-cases (str_eq j k)) [
  | inl own ↦ rw ((eq_iff j k).0 own) (
    ap (λ b. b.last_request_at)
        (bucket-insert_self k (blocked until reason (bucket k d)) (set_default k d)),
    λ apart. absurd (false≢true (sym apart ∙ eq_refl k)),
  )
  | inr other ↦
      let e =
        bucket-insert_other j k (blocked until reason (bucket k d)) (set_default k d) other
        ∙ bucket-set_default j k d in
      (ap (λ b. b.last_request_at) e, λ apart. e)
]

-- A call on an account: a pass of the throttle, or the report of a response.
pub data Action : Type 0 where
  passing : String → ℕ → Action
  reporting : String → ℕ → String → Bool → ℕ → Action

abbrev pub sent_by : String → String → ℕ → Pass → List ℕ
sent_by key k now granted = when (str_eq key k) now
sent_by key k now (rate_limited left reason) = []
sent_by key k now (waiting left) = []

module _ (min_interval setting : ℕ) where
  unfoldable pub act : Action → Dict Bucket → Dict Bucket
  act (passing k now) d = (try_slot min_interval k now d).1
  act (reporting k code body mark now) d =
      (mark_etoro_rate_limited setting k code body mark now d).1

  -- Does a request of the account `key` go out, and when?
  abbrev pub sent : String → Action → Dict Bucket → List ℕ
  sent key (reporting k code body mark now) d = []
  sent key (passing k now) d = sent_by key k now (try_slot min_interval k now d).0

  unfoldable pub all_sent : String → List Action → Dict Bucket → List ℕ
  unfolding act
  all_sent key [] d = []
  all_sent key (a ∷ later) d = sent key a d ++ all_sent key later (act a d)

  abbrev pub Spaced : ℕ → List ℕ → Type 0
  Spaced last [] = Unit
  Spaced last (t ∷ ts) = (last + min_interval ≤ t) × Spaced t ts

  bucket-mark :
      (j k : String) (code : ℕ) (body : String) (mark : Bool) (now : ℕ) (d : Dict Bucket)
      → let b = bucket j (mark_etoro_rate_limited setting k code body mark now d).1 in
        (b.last_request_at ≡ (bucket j d).last_request_at) × (str_eq j k ≡ false → b ≡ bucket j d)
  unfolding mark_etoro_rate_limited
  bucket-mark j k code body mark now d = elim (Bool-cases (is_rate_limited code body)) [
    | inr free ↦ rw free (refl, λ apart. refl)
    | inl limited ↦ elim (Bool-cases mark) [
      | inr quiet ↦ rw (limited, quiet) (refl, λ apart. refl)
      | inl loud ↦
          rw (limited, loud) (mark_bucket j k (now + cooldown_of setting) (limit_reason body) d)
    ]
  ]

  granted-Spaced :
      (key k : String) (now : ℕ) (d : Dict Bucket) (rest : List ℕ)
      → (bucket k d).last_request_at + min_interval ≤ now
      → Spaced
          (bucket key (insert k (record (bucket k d) { last_request_at = now }) d)).last_request_at
          rest
      → Spaced (bucket key d).last_request_at (when (str_eq key k) now ++ rest)
  granted-Spaced key k now d rest late spaced = elim (Bool-cases (str_eq key k)) [
    | inl own ↦
        let same = (eq_iff key k).0 own in
        rw (own) (rw same late, rw (bucket-insert key k _ d, own) at spaced)
    | inr other ↦ rw other (rw (bucket-insert_other key k _ d other) at spaced)
  ]

  pass-Spaced :
      (key k : String) (now : ℕ) (d : Dict Bucket) (pass : Pass) (rest : List ℕ)
      → (pass ≡ granted → (bucket k d).last_request_at + min_interval ≤ now)
      → Spaced (bucket key (after_pass k now pass d)).last_request_at rest
      → Spaced (bucket key d).last_request_at (sent_by key k now pass ++ rest)
  unfolding after_pass
  pass-Spaced key k now d granted rest late spaced =
      granted-Spaced key k now d rest (late refl) spaced
  pass-Spaced key k now d (rate_limited left reason) rest late spaced = spaced
  pass-Spaced key k now d (waiting left) rest late spaced = spaced

  -- In any interleaving of the calls of any accounts, the requests of one account go out at least
  -- the minimal interval apart, the first of them from the account's last request before.
  pub all_sent-Spaced :
      (key : String) (actions : List Action) (d : Dict Bucket)
      → Spaced (bucket key d).last_request_at (all_sent key actions d)
  unfolding all_sent act try_slot
  all_sent-Spaced key [] d = tt
  all_sent-Spaced key (reporting k code body mark now ∷ later) d =
      let d' = (mark_etoro_rate_limited setting k code body mark now d).1 in
      let rest : Spaced (bucket key d').last_request_at (all_sent key later d') =
        all_sent-Spaced key later d' in
      rw ((bucket-mark key k code body mark now d).0) at rest
  all_sent-Spaced key (passing k now ∷ later) d =
      let d' = set_default k d in
      let pass = pass_at min_interval (bucket k d') now in
      let rest = all_sent-Spaced key later (after_pass k now pass d') in
      rw (bucket-set_default key k d) at
        (pass-Spaced key k now d' pass _ (late_of_granted min_interval now (bucket k d')) rest)

  -- A report of one account's response leaves every other account's next pass as it is.
  pub mark-other_account :
      (key other : String) (code : ℕ) (body : String) (mark : Bool) (now now' : ℕ) (d : Dict Bucket)
      → str_eq other key ≡ false
      → (try_slot min_interval other now'
          (mark_etoro_rate_limited setting key code body mark now d).1).0
        ≡ (try_slot min_interval other now' d).0
  unfolding try_slot
  mark-other_account key other code body mark now now' d apart =
      let d' = (mark_etoro_rate_limited setting key code body mark now d).1 in
      ap (λ b. pass_at min_interval b now')
        (bucket-set_default other other d'
          ∙ (bucket-mark other key code body mark now d).1 apart
          ∙ sym (bucket-set_default other other d))
