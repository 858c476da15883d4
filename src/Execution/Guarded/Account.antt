-- ===== src/Execution/Guarded/Account.antt =====
-- app/execution/coordinator.py, `_account_validation_reasons`: what it finds and what it changes.
use algo_trader.Prelude.{
  ℕ, String, ◌≡◌, refl, inl, inr, Bool, Option, none, some, List, arith, str_eq, Bool-cases,
}
use algo_trader.Result.{Result, ok, err}
use algo_trader.Float.{Float}
use algo_trader.Broker.Router.{Choice}
use algo_trader.Text.{is_nonempty, strip}
use algo_trader.Execution.{Identity, Failure, World, AccountReason, Coordinator, Outside}
use algo_trader.Execution.Checks.{identity_check, with_support, account_validation_reasons}

module _ {F : Type 0} ⦃n : Float F⦄ (c : Coordinator F) (o : Outside F) where
  identity_check-world :
      (now : ℕ) (expected : String) (i : Option (Result String Identity)) (w : World F)
      → (identity_check c now expected i w).1
        ≡ record w { automation = (identity_check c now expected i w).1.automation }
  unfolding identity_check
  identity_check-world now expected none w = refl
  identity_check-world now expected (some (err e)) w = elim (Bool-cases (is_nonempty expected)) [
    | inl asked ↦ rw asked refl
    | inr free ↦ rw free refl
  ]
  identity_check-world now expected (some (ok i)) w = elim (Bool-cases (is_nonempty expected)) [
    | inr free ↦ rw free refl
    | inl asked ↦ elim (Bool-cases (str_eq i.account_number expected)) [
      | inl same ↦ rw (asked, same) refl
      | inr other ↦ rw (asked, other) refl
    ]
  ]

  identity_check-result :
      (now : ℕ) (expected : String) (i : Option (Result String Identity)) (v w : World F)
      → (identity_check c now expected i v).0 ≡ (identity_check c now expected i w).0
  unfolding identity_check
  identity_check-result now expected none v w = refl
  identity_check-result now expected (some (err e)) v w = ground arith
  identity_check-result now expected (some (ok i)) v w = ground arith

  with_support-result :
      (supported : Option (Result String Bool))
      (m t : Result (Failure F) (List AccountReason) × World F)
      → m.0 ≡ t.0
      → (with_support supported m).0 ≡ (with_support supported t).0
  with_support-result supported (ok x, v) (ok y, w) e = cc
  with_support-result supported (ok x, v) (err y, w) e = cc
  with_support-result supported (err x, v) (ok y, w) e = cc
  with_support-result supported (err x, v) (err y, w) e = cc

  -- What the account's checks find does not depend on the state.
  pub account-result :
      (name : Choice) (v w : World F)
      → (account_validation_reasons c o name v).0 ≡ (account_validation_reasons c o name w).0
  unfolding account_validation_reasons
  account-result Choice.alpaca v w = with_support-result o.broker.is_supported_equity _ _ (
      identity_check-result o.tripped (strip c.settings.automation.expected_account_number)
        o.broker.get_account_identity v w)
  account-result Choice.etoro v w = refl
  account-result Choice.nobody v w = refl

  with_support-world :
      (supported : Option (Result String Bool)) (w : World F)
      (m : Result (Failure F) (List AccountReason) × World F)
      → m.1 ≡ record w { automation = m.1.automation }
      → (with_support supported m).1
        ≡ record w { automation = (with_support supported m).1.automation }
  with_support-world supported w (ok x, v) e = e
  with_support-world supported w (err x, v) e = e

  -- The account's checks change the automation alone.
  pub account-world :
      (name : Choice) (w : World F)
      → (account_validation_reasons c o name w).1
        ≡ record w { automation = (account_validation_reasons c o name w).1.automation }
  unfolding account_validation_reasons
  account-world Choice.alpaca w = with_support-world o.broker.is_supported_equity w _ (
      identity_check-world o.tripped (strip c.settings.automation.expected_account_number)
        o.broker.get_account_identity w)
  account-world Choice.etoro w = refl
  account-world Choice.nobody w = refl
