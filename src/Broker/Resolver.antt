-- ===== src/Broker/Resolver.antt =====
-- app/broker/instrument_resolver.py: normalising a symbol and the allow and block lists.
pub mod Lists
pub mod Tests
use Prim.Native.Char.{Char, code}
use algo_trader.Prelude.{
  String, Bool, true, not, ◌&&◌, ◌||◌, Option, none, some, List, [], ◌∷◌, ◌++◌, leb, ◌==◌,
  if◌then◌else◌,
}
use algo_trader.Result.{Result, ok, err}
use algo_trader.Models.{AssetClass}
use algo_trader.Dict.{Dict, lookup}
use algo_trader.Text.{upper, strip, elem, is_nonempty}
use algo_trader.Broker.Crypto.{to_alpaca_symbol}

pub record SupportedInstrument : Type 0 where
  pub symbol : String
  pub broker_symbol : String
  pub asset_class : AssetClass

pub record InstrumentSettings : Type 0 where
  pub blocked_instruments : List String
  pub allowed_instruments : List String
  pub crypto_trading_enabled : Bool
  pub crypto_symbols : List String

-- The `ValueError`s of `resolve`, each with the symbol that it names.
pub data ResolveError : Type 0 where
  explicitly_blocked : String → ResolveError
  not_in_crypto_list : String → ResolveError
  not_in_allowed_list : String → ResolveError
  not_a_ticker : String → ResolveError

abbrev instrument : String → AssetClass → SupportedInstrument
instrument s c = record { symbol = s; broker_symbol = s; asset_class = c }

abbrev pub default_instruments : Dict SupportedInstrument
default_instruments =
    ("NVDA", instrument "NVDA" AssetClass.equity)
    ∷ ("GOOG", instrument "GOOG" AssetClass.equity)
    ∷ ("GOOGL", instrument "GOOGL" AssetClass.equity)
    ∷ ("AMD", instrument "AMD" AssetClass.equity)
    ∷ ("MU", instrument "MU" AssetClass.equity)
    ∷ ("GOLD", instrument "GOLD" AssetClass.gold)
    ∷ []

is_alnum_char : Char → Bool
is_alnum_char c =
    let n = code c in (leb 48 n && leb n 57) || (leb 65 n && leb n 90) || (leb 97 n && leb n 122)

is_separator : Char → Bool
is_separator c = code c == 46 || code c == 45

-- `s.replace(".", "").replace("-", "")`
drop_separators : String → String
drop_separators String.[] = String.[]
drop_separators (String.◌∷◌ c s) =
    let rest = drop_separators s in if is_separator c then rest else String.◌∷◌ c rest

all_alnum : String → Bool
all_alnum String.[] = true
all_alnum (String.◌∷◌ c s) = is_alnum_char c && all_alnum s

unfoldable pub is_ticker : String → Bool
unfolding is_alnum_char is_separator drop_separators all_alnum
is_ticker s = let t = drop_separators s in is_nonempty t && all_alnum t

unfoldable pub catalog_or_equity : String → Result ResolveError SupportedInstrument
unfolding is_ticker
catalog_or_equity normalized = elim (lookup normalized default_instruments) [
  | some i ↦ ok i
  | none ↦
      if not (is_ticker normalized)
      then err (not_a_ticker normalized)
      else ok (instrument normalized AssetClass.equity)
]

-- The comprehension over `settings.crypto_symbols`.
unfoldable pub allowed_crypto : List String → List String
unfolding to_alpaca_symbol
allowed_crypto [] = []
allowed_crypto (s ∷ rest) =
    let later = allowed_crypto rest in
    elim (to_alpaca_symbol s) [ none ↦ later | some canonical ↦ canonical ∷ later ]

unfoldable pub resolve_crypto :
    InstrumentSettings → String → Result ResolveError (Option SupportedInstrument)
unfolding allowed_crypto to_alpaca_symbol
resolve_crypto s normalized =
    if not s.crypto_trading_enabled then ok none else elim (to_alpaca_symbol normalized) [
      | none ↦ ok none
      | some canonical ↦
          if elem canonical (allowed_crypto s.crypto_symbols)
          then ok (some (instrument canonical AssetClass.crypto))
          else err (not_in_crypto_list canonical)
    ]

unfoldable pub resolve_listed :
    InstrumentSettings → String → Result ResolveError SupportedInstrument
unfolding catalog_or_equity
resolve_listed s normalized =
    if elem normalized s.allowed_instruments
    then catalog_or_equity normalized
    else err (not_in_allowed_list normalized)

unfoldable pub resolve : InstrumentSettings → String → Result ResolveError SupportedInstrument
unfolding resolve_crypto resolve_listed upper strip
resolve s symbol =
    let normalized = strip (upper symbol) in
    if elem normalized s.blocked_instruments
    then err (explicitly_blocked normalized)
    else elim (resolve_crypto s normalized) [
      | err e ↦ err e
      | ok (some i) ↦ ok i
      | ok none ↦ resolve_listed s normalized
    ]

list_equities : InstrumentSettings → List String → Result ResolveError (List SupportedInstrument)
unfolding catalog_or_equity
list_equities s [] = ok []
list_equities s (symbol ∷ rest) =
    let later = list_equities s rest in
    let normalized = strip (upper symbol) in
    if is_nonempty normalized && not (elem normalized s.blocked_instruments)
    then elim (catalog_or_equity normalized) [
      | err e ↦ err e
      | ok i ↦ elim later [ err e ↦ err e | ok is ↦ ok (i ∷ is) ]
    ]
    else later

list_crypto : List String → List SupportedInstrument
list_crypto [] = []
list_crypto (symbol ∷ rest) =
    let later = list_crypto rest in
    elim (to_alpaca_symbol symbol) [
      | none ↦ later
      | some canonical ↦ instrument canonical AssetClass.crypto ∷ later
    ]

unfoldable pub list_supported : InstrumentSettings → Result ResolveError (List SupportedInstrument)
unfolding list_equities list_crypto
list_supported s = elim (list_equities s s.allowed_instruments) [
  | err e ↦ err e
  | ok equities ↦
      ok (if s.crypto_trading_enabled then equities ++ list_crypto s.crypto_symbols else equities)
]
