-- ===== src/Broker/Router.antt =====
-- app/broker/router.py: which broker executes a proposal, and which clients an emergency stop reaches.
-- A client is a number that stands for the object.
pub mod Reach
use algo_trader.Prelude.{ℕ, Option, none, some, List, [], ◌∷◌, ◌++◌, ◌==◌, if◌then◌else◌, any}
use algo_trader.Result.{Result, ok, err}
use algo_trader.Models.{AssetClass}

pub data Choice : Type 0 where
  alpaca : Choice
  etoro : Choice
  nobody : Choice

pub record Router : Type 0 where
  pub alpaca_client : Option ℕ
  pub etoro_client : Option ℕ
  pub broker_for_equities : Choice
  pub broker_for_non_equities : Choice
  pub broker_for_crypto : Choice
  pub emergency_clients : List ℕ

-- `NoBrokerForAssetClass`, with what its message names
pub data NoBroker : Type 0 where
  client_not_configured : Choice → AssetClass → NoBroker
  no_broker_configured : AssetClass → NoBroker

unfoldable pub choice_for : Router → AssetClass → Choice
choice_for r AssetClass.equity = r.broker_for_equities
choice_for r AssetClass.crypto = r.broker_for_crypto
choice_for r AssetClass.gold = r.broker_for_non_equities
choice_for r AssetClass.unknown = r.broker_for_non_equities

abbrev pub configured : Choice → AssetClass → Option ℕ → Result NoBroker ℕ
configured choice asset_class none = err (client_not_configured choice asset_class)
configured choice asset_class (some client) = ok client

abbrev pub client_of : Router → AssetClass → Choice → Result NoBroker ℕ
client_of r asset_class Choice.alpaca = configured Choice.alpaca asset_class r.alpaca_client
client_of r asset_class Choice.etoro = configured Choice.etoro asset_class r.etoro_client
client_of r asset_class Choice.nobody = err (no_broker_configured asset_class)

unfoldable pub select_broker_for : Router → AssetClass → Result NoBroker ℕ
unfolding choice_for
select_broker_for r asset_class = client_of r asset_class (choice_for r asset_class)

abbrev pub present : Option ℕ → List ℕ
present none = []
present (some client) = client ∷ []

unfoldable pub without : ℕ → List ℕ → List ℕ
without x [] = []
without x (y ∷ ys) = let rest = without x ys in if x == y then rest else y ∷ rest

-- `list(dict.fromkeys(clients))`
unfoldable pub first_of_each : List ℕ → List ℕ
unfolding without
first_of_each [] = []
first_of_each (x ∷ xs) = x ∷ without x (first_of_each xs)

unfoldable pub all_clients : Router → List ℕ
unfolding first_of_each
all_clients r =
    first_of_each (present r.alpaca_client ++ (present r.etoro_client ++ r.emergency_clients))

unfoldable pub add_emergency_client : Option ℕ → Router → Router
add_emergency_client none r = r
add_emergency_client (some client) r =
    if any (λ c. c == client) r.emergency_clients
    then r
    else record r { emergency_clients = r.emergency_clients ++ (client ∷ []) }
