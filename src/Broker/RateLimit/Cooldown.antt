-- ===== src/Broker/RateLimit/Cooldown.antt =====
-- What the cooldown of app/broker/etoro_rate_limit.py keeps from going out, in any interleaving of calls.
use algo_trader.Prelude.{
  ℕ, ◌+◌, ◌-◌, ◌≤◌, ◌<◌, String, ◌≡◌, refl, sym, ap, ◌∙◌, inl, inr, Bool, true, List, [], ◌∷◌,
  arith, str_eq, eq_iff, ltb, Bool-cases, All, eq_refl,
}
use mathlib.Core.Bool.{false≢true}
use algo_trader.Dict.{Dict, insert}
use algo_trader.Broker.RateLimit.{
  Bucket, bucket, set_default, Pass, pass_at, after_pass, blocked, rate_limited, granted, waiting,
  try_slot, is_rate_limited, cooldown_of, limit_reason, mark_etoro_rate_limited,
}
use algo_trader.Broker.RateLimit.Accounts.{
  Action, passing, reporting, bucket-insert, bucket-set_default, act, sent_by, all_sent,
}

-- A pass of the throttle comes before the time; reports may come at any time.
abbrev pub IsEarly : ℕ → Action → Type 0
IsEarly until (passing k now) = now < until
IsEarly until (reporting k code body mark now) = Unit

-- An account in its cooldown is refused.
pass_at_cooldown :
    (min_interval now : ℕ) (b : Bucket)
    → now < b.blocked_until
    → pass_at min_interval b now ≡ rate_limited (b.blocked_until - now) b.reason
unfolding pass_at
pass_at_cooldown min_interval now b early =
    let held : ltb now b.blocked_until ≡ true = ground (arith, early) in rw held

blocked-grows :
    (until : ℕ) (reason : String) (b : Bucket)
    → (b.blocked_until ≤ (blocked until reason b).blocked_until)
      × (until ≤ (blocked until reason b).blocked_until)
blocked-grows until reason b = ground arith

module _ (key : String) where
  -- A pass leaves the end of every account's cooldown, the refused one included.
  blocked_until-after_pass :
      (k : String) (now : ℕ) (pass : Pass) (d : Dict Bucket)
      → (bucket key (after_pass k now pass d)).blocked_until ≡ (bucket key d).blocked_until
  unfolding after_pass
  blocked_until-after_pass k now (rate_limited left reason) d = refl
  blocked_until-after_pass k now (waiting left) d = refl
  blocked_until-after_pass k now granted d = elim (Bool-cases (str_eq key k)) [
    | inl own ↦ rw (bucket-insert key k _ d, own) (rw ((eq_iff key k).0 own))
    | inr other ↦ rw (bucket-insert key k _ d, other)
  ]

  blocked_until-try_slot :
      (min_interval : ℕ) (k : String) (now : ℕ) (d : Dict Bucket)
      → (bucket key (try_slot min_interval k now d).1).blocked_until ≡ (bucket key d).blocked_until
  unfolding try_slot
  blocked_until-try_slot min_interval k now d =
      blocked_until-after_pass k now _ (set_default k d)
      ∙ ap (λ b. b.blocked_until) (bucket-set_default key k d)

  -- A report does not shorten a cooldown, and opens one of its own account.
  blocked_until-insert :
      (k : String) (until : ℕ) (reason : String) (d : Dict Bucket)
      → let b = bucket key (insert k (blocked until reason (bucket k d)) (set_default k d)) in
        ((bucket key d).blocked_until ≤ b.blocked_until)
        × (str_eq key k ≡ true → until ≤ b.blocked_until)
  blocked_until-insert k until reason d = elim (Bool-cases (str_eq key k)) [
    | inl own ↦
        let grown = blocked-grows until reason (bucket k d) in
        rw (bucket-insert key k (blocked until reason (bucket k d)) (set_default k d), own)
          (rw ((eq_iff key k).0 own) (grown.0, λ e. grown.1))
    | inr other ↦
        rw
          (
            bucket-insert key k (blocked until reason (bucket k d)) (set_default k d),
            other,
            bucket-set_default key k d,
          )
          (omega arith, λ e. absurd (false≢true e))
  ]

  blocked_until-mark :
      (setting : ℕ) (k : String) (code : ℕ) (body : String) (mark : Bool) (now : ℕ)
      (d : Dict Bucket)
      → (bucket key d).blocked_until
        ≤ (bucket key (mark_etoro_rate_limited setting k code body mark now d).1).blocked_until
  unfolding mark_etoro_rate_limited
  blocked_until-mark setting k code body mark now d =
      elim (Bool-cases (is_rate_limited code body)) [
        | inr free ↦ rw free (omega arith)
        | inl limited ↦ elim (Bool-cases mark) [
          | inr quiet ↦ rw (limited, quiet) (omega arith)
          | inl loud ↦
              rw (limited, loud)
                (blocked_until-insert k (now + cooldown_of setting) (limit_reason body) d).0
        ]
      ]

  sent_by_refused :
      (now left : ℕ) (k reason : String) (pass : Pass)
      → (str_eq key k ≡ true → pass ≡ rate_limited left reason)
      → sent_by key k now pass ≡ []
  sent_by_refused now left k reason (rate_limited l r) e = refl
  sent_by_refused now left k reason (waiting l) e = refl
  sent_by_refused now left k reason granted e = elim (Bool-cases (str_eq key k)) [
    | inl own ↦ cc (e own)
    | inr other ↦ rw other refl
  ]

  -- A pass of the account in its cooldown is refused.
  try_slot_cooldown :
      (min_interval now : ℕ) (k : String) (d : Dict Bucket)
      → now < (bucket key d).blocked_until
      → str_eq key k ≡ true
      → (try_slot min_interval k now d).0
        ≡ rate_limited ((bucket key d).blocked_until - now) (bucket key d).reason
  unfolding try_slot
  try_slot_cooldown min_interval now k d early own =
      rw (sym ((eq_iff key k).0 own), bucket-set_default key key d)
        (pass_at_cooldown min_interval now (bucket key d) early)

  module _ (min_interval setting : ℕ) where
    -- Up to the end of a cooldown nothing is sent for the account.
    all_sent-nil :
        (until : ℕ) (actions : List Action) (d : Dict Bucket)
        → until ≤ (bucket key d).blocked_until
        → All (IsEarly until) actions
        → all_sent min_interval setting key actions d ≡ []
    unfolding all_sent act
    all_sent-nil until [] d held early = refl
    all_sent-nil until (reporting k code body mark now ∷ later) d held (_, early) =
        all_sent-nil until later (mark_etoro_rate_limited setting k code body mark now d).1
          (omega (arith, held, blocked_until-mark setting k code body mark now d)) early
    all_sent-nil until (passing k now ∷ later) d held (now_early, early) =
        let rest =
          all_sent-nil until later (try_slot min_interval k now d).1
            (omega (arith, held, blocked_until-try_slot min_interval k now d)) early in
        let unsent =
          sent_by_refused now ((bucket key d).blocked_until - now) k (bucket key d).reason
            (try_slot min_interval k now d).0
            (try_slot_cooldown min_interval now k d (omega (arith, held, now_early))) in
        rw (unsent, rest) refl

    -- While the cooldown that a rate limit opens lasts, no request of that account goes out, however
    -- the account stood before and whatever calls of any accounts are made: further passes, refused
    -- ones included, and further reports.
    pub mark-blocks :
        (code : ℕ) (body : String) (now : ℕ) (actions : List Action) (d : Dict Bucket)
        → is_rate_limited code body ≡ true
        → All (IsEarly (now + cooldown_of setting)) actions
        → all_sent min_interval setting key actions
            (mark_etoro_rate_limited setting key code body true now d).1
          ≡ []
    unfolding mark_etoro_rate_limited
    mark-blocks code body now actions d limited early = rw limited (
        all_sent-nil (now + cooldown_of setting) actions _
          ((blocked_until-insert key (now + cooldown_of setting) (limit_reason body) d).1
            (eq_refl key))
          early)
