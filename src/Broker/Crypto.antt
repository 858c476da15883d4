-- ===== src/Broker/Crypto.antt =====
-- app/broker/crypto.py: recognising and normalising crypto symbols.
use algo_trader.Prelude.{
  String, Bool, not, ◌&&◌, Option, none, some, List, [], ◌∷◌, str_eq, ◌==◌, if◌then◌else◌, is_some,
}
use Prim.Native.Char.{Char, code}
use algo_trader.Text.{upper, strip, elem, is_nonempty, concat}

abbrev pub known_crypto_bases : List String
known_crypto_bases =
    "BTC" ∷ "ETH" ∷ "SOL" ∷ "LTC" ∷ "LINK" ∷ "AVAX" ∷ "BCH" ∷ "UNI" ∷ "AAVE" ∷ "DOGE" ∷ "DOT"
    ∷ "MATIC" ∷ "USDT" ∷ "USDC" ∷ []

abbrev pub quotes : List String
quotes = "USD" ∷ "USDT" ∷ "USDC" ∷ []

-- `raw.partition(sep)`: the parts around the first separator, or none where there is no separator.
partition : Char → String → Option (String × String)
partition sep String.[] = none
partition sep (String.◌∷◌ c s) =
    if code c == code sep
    then some (String.[], s)
    else elim (partition sep s) [ none ↦ none | some (b, q) ↦ some (String.◌∷◌ c b, q) ]

-- `raw[:-len(suffix)]` where `raw.endswith(suffix)`.
remove_suffix : String → String → Option String
remove_suffix suffix String.[] = if str_eq String.[] suffix then some String.[] else none
remove_suffix suffix (String.◌∷◌ c s) =
    if str_eq (String.◌∷◌ c s) suffix
    then some String.[]
    else elim (remove_suffix suffix s) [ none ↦ none | some b ↦ some (String.◌∷◌ c b) ]

split_explicit : String × String → Option (String × String)
split_explicit (b, q) =
    let base = strip b in
    let quote = strip q in
    if elem base known_crypto_bases && elem quote quotes then some (base, quote) else none

-- The quotes sorted by length, the longest first; the sort is stable.
abbrev longest_first : List String
longest_first = "USDT" ∷ "USDC" ∷ "USD" ∷ []

split_joined : List String → String → Option (String × String)
split_joined [] raw = none
split_joined (quote ∷ rest) raw =
    let later = split_joined rest raw in
    elim (remove_suffix quote raw) [
      | none ↦ later
      | some base ↦ if elem base known_crypto_bases then some (base, quote) else later
    ]

-- `_split`
unfoldable pub split : String → Option (String × String)
unfolding partition remove_suffix split_explicit split_joined upper strip
split symbol =
    let raw = upper (strip symbol) in
    if not (is_nonempty raw) then none else elim (partition "/" raw) [
      | some parts ↦ split_explicit parts
      | none ↦ elim (partition "-" raw) [
        | some parts ↦ split_explicit parts
        | none ↦ split_joined longest_first raw
      ]
    ]

unfoldable pub is_crypto_symbol : String → Bool
is_crypto_symbol symbol = is_some (split symbol)

-- `none` is the `ValueError` of a symbol that is not recognised.
unfoldable pub to_alpaca_symbol : String → Option String
to_alpaca_symbol symbol = elim (split symbol) [
  | none ↦ none
  | some (base, quote) ↦ some (concat base (concat "/" quote))
]

unfoldable pub to_yfinance_symbol : String → Option String
to_yfinance_symbol symbol = elim (split symbol) [
  | none ↦ none
  | some (base, quote) ↦ some (concat base (concat "-" quote))
]

unfoldable pub canonical : String → Option String
unfolding to_alpaca_symbol
canonical = to_alpaca_symbol
