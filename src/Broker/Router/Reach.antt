-- ===== src/Broker/Router/Reach.antt =====
-- The clients of app/broker/router.py that an emergency stop reaches.
use algo_trader.Prelude.{
  ℕ, ◌+◌, ◌≡◌, refl, ap, inl, inr, Bool, true, ◌||◌, Option, none, some, List, [], ◌∷◌, ◌++◌, arith,
  ◌==◌, if◌then◌else◌, Bool-cases, any,
}
use algo_trader.Result.{ok, ok-injective}
use algo_trader.Models.{AssetClass}
use algo_trader.Broker.Router.{
  Choice, Router, choice_for, configured, client_of, select_broker_for, present, without,
  first_of_each, all_clients, add_emergency_client,
}

unfoldable pub occurrences : ℕ → List ℕ → ℕ
occurrences x [] = 0
occurrences x (y ∷ ys) = (if y == x then 1 else 0) + occurrences x ys

abbrev is_in : ℕ → List ℕ → Bool
is_in x = any (λ y. y == x)

occurrences-without :
    (x y : ℕ) (ys : List ℕ)
    → occurrences x (without y ys) ≡ (if y == x then 0 else occurrences x ys)
unfolding occurrences without
occurrences-without x y [] = ground arith
occurrences-without x y (z ∷ ys) = let rest = occurrences-without x y ys in ground arith

occurrences-first_of_each :
    (x : ℕ) (ys : List ℕ) → occurrences x (first_of_each ys) ≡ (if is_in x ys then 1 else 0)
unfolding occurrences first_of_each
occurrences-first_of_each x [] = refl
occurrences-first_of_each x (y ∷ ys) =
    let rest = occurrences-first_of_each x ys in
    rw (occurrences-without x y (first_of_each ys), rest) (ground arith)

is_in-append : (x : ℕ) (ys zs : List ℕ) → is_in x (ys ++ zs) ≡ (is_in x ys || is_in x zs)
is_in-append x [] zs = refl
is_in-append x (y ∷ ys) zs = let rest = is_in-append x ys zs in ground arith

is_in-clients : Router → ℕ → Bool
is_in-clients r x =
    is_in x (present r.alpaca_client ++ (present r.etoro_client ++ r.emergency_clients))

once_of_is_in : (x : ℕ) (ys : List ℕ) → is_in x ys ≡ true → occurrences x (first_of_each ys) ≡ 1
once_of_is_in x ys h = rw (occurrences-first_of_each x ys, h)

configured_client :
    (choice : Choice) (asset_class : AssetClass) (o : Option ℕ) (client : ℕ)
    → configured choice asset_class o ≡ ok client
    → o ≡ some client
configured_client choice asset_class none client e = cc
configured_client choice asset_class (some c) client e =
    ap some (ok-injective c client (ok c) refl e)

chosen_is_in :
    (r : Router) (asset_class : AssetClass) (client : ℕ) (choice : Choice)
    → client_of r asset_class choice ≡ ok client
    → is_in-clients r client ≡ true
unfolding is_in-clients
chosen_is_in r asset_class client Choice.alpaca e =
    rw (configured_client Choice.alpaca asset_class r.alpaca_client client e) (ground arith)
chosen_is_in r asset_class client Choice.etoro e =
    rw (configured_client Choice.etoro asset_class r.etoro_client client e)
      (rw (is_in-append client (present r.alpaca_client)) (ground arith))
chosen_is_in r asset_class client Choice.nobody e = cc

-- Whichever client execution may select for an order, whatever its asset class, the emergency stop
-- reaches it, and only once.
pub select_broker_for-reached :
    (r : Router) (asset_class : AssetClass) (client : ℕ)
    → select_broker_for r asset_class ≡ ok client
    → occurrences client (all_clients r) ≡ 1
unfolding select_broker_for all_clients is_in-clients
select_broker_for-reached r asset_class client chosen =
    once_of_is_in client _ (chosen_is_in r asset_class client (choice_for r asset_class) chosen)

-- A client that is added for emergencies is reached by the emergency stop, and only once, also if it
-- was added before or is one that executes orders.
pub add_emergency_client-reached :
    (r : Router) (client : ℕ)
    → occurrences client (all_clients (add_emergency_client (some client) r)) ≡ 1
unfolding add_emergency_client all_clients
add_emergency_client-reached r client = elim (Bool-cases (is_in client r.emergency_clients)) [
  | inl there ↦ rw there (
      once_of_is_in client _ (
        rw (is_in-append client (present r.alpaca_client))
          (rw (is_in-append client (present r.etoro_client), there) (ground arith))))
  | inr new ↦ rw new (
      once_of_is_in client _ (
        rw (is_in-append client (present r.alpaca_client)) (
          rw (is_in-append client (present r.etoro_client))
            (rw (is_in-append client r.emergency_clients) (ground arith)))))
]
