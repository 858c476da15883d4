-- ===== src/Broker/Resolver/Lists.antt =====
-- The allow and block lists of app/broker/instrument_resolver.py, and what they let through.
use algo_trader.Prelude.{
  String, ◌≡◌, refl, sym, ap, ◌∙◌, ◌⊎◌, inl, inr, true, false, none, some, Bool-cases, Option-cases,
}
use mathlib.Core.Option.{some-injective}
use algo_trader.Result.{ok, err, Result-cases, ok-injective}
use algo_trader.Models.{AssetClass}
use algo_trader.Text.{upper, strip, elem}
use algo_trader.Broker.Crypto.{to_alpaca_symbol}
use algo_trader.Broker.Resolver.{
  SupportedInstrument, InstrumentSettings, explicitly_blocked, not_in_crypto_list,
  not_in_allowed_list, allowed_crypto, resolve_crypto, resolve_listed, resolve,
}

-- The operator's list that lets an instrument through.
abbrev pub IsListed : InstrumentSettings → String → SupportedInstrument → Type 0
IsListed s normalized i =
    (elem normalized s.allowed_instruments ≡ true)
    ⊎ ((s.crypto_trading_enabled ≡ true)
        × (i.asset_class ≡ AssetClass.crypto)
        × (elem i.symbol (allowed_crypto s.crypto_symbols) ≡ true))

module _ (s : InstrumentSettings) (normalized : String) (i : SupportedInstrument) where
  resolve_crypto-IsListed : resolve_crypto s normalized ≡ ok (some i) → IsListed s normalized i
  unfolding resolve_crypto
  resolve_crypto-IsListed e = elim (Bool-cases s.crypto_trading_enabled) [
    | inr off ↦ let skipped : ok none ≡ ok (some i) = rw (off, resolve_crypto) at e in cc
    | inl on ↦ elim (Option-cases (to_alpaca_symbol normalized)) [
      | inl other ↦ let skipped : ok none ≡ ok (some i) = rw (on, other, resolve_crypto) at e in cc
      | inr (canonical, pair) ↦
          elim (Bool-cases (elem canonical (allowed_crypto s.crypto_symbols))) [
            | inr missing ↦
                let raised : err (not_in_crypto_list canonical) ≡ ok (some i) =
                  rw (on, pair, missing, resolve_crypto) at e in
                cc
            | inl found ↦
                let made = rw (on, pair, found, resolve_crypto) at e in
                let same =
                  some-injective _ i (ok-injective _ (some i) (ok (some i)) (sym made) refl) in
                inr
                  (on, ap (λ x. x.asset_class) (sym same), rw (sym (ap (λ x. x.symbol) same)) found)
          ]
    ]
  ]

  resolve_listed-IsListed : resolve_listed s normalized ≡ ok i → IsListed s normalized i
  unfolding resolve_listed
  resolve_listed-IsListed e = elim (Bool-cases (elem normalized s.allowed_instruments)) [
    | inl found ↦ inl found
    | inr missing ↦ let raised : err (not_in_allowed_list normalized) ≡ ok i = rw missing at e in cc
  ]

-- An instrument is resolved only if the normalised symbol is not blocked, and either is on the list
-- of allowed instruments, or crypto trading is on and the instrument is a pair of the crypto list.
pub resolve-IsListed :
    (s : InstrumentSettings) (symbol : String) (i : SupportedInstrument)
    → resolve s symbol ≡ ok i
    → (elem (strip (upper symbol)) s.blocked_instruments ≡ false)
      × IsListed s (strip (upper symbol)) i
unfolding resolve
resolve-IsListed s symbol i e =
    let normalized = strip (upper symbol) in
    elim (Bool-cases (elem normalized s.blocked_instruments)) [
      | inl blocked ↦
          let raised : err (explicitly_blocked normalized) ≡ ok i = rw blocked at e in cc
      | inr free ↦ (
        free,
        elim (Result-cases (resolve_crypto s normalized)) [
          | inl (x, raised) ↦ let stop : err x ≡ ok i = rw (free, raised, resolve) at e in cc
          | inr (o, returned) ↦ elim (Option-cases o) [
            | inl skipped ↦
                resolve_listed-IsListed s normalized i (rw (free, returned, skipped, resolve) at e)
            | inr (j, found) ↦
                let made : ok j ≡ ok i = rw (free, returned, found, resolve) at e in
                let same = ok-injective i j (ok i) refl (sym made) in
                resolve_crypto-IsListed s normalized i
                  (returned ∙ ap ok (found ∙ ap some (sym same)))
          ]
        ],
      )
    ]
