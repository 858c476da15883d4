-- ===== src/Broker/Tests.antt =====
-- Runs of app/broker/router.py and app/broker/etoro_rate_limit.py.
use algo_trader.Prelude.{ℕ, suc, ◌+◌, ◌-◌, ◌*◌, ◌≤◌, ◌≡◌, refl, true, some, List, [], ◌∷◌, arith}
use algo_trader.Dict.{Dict}
use algo_trader.Result.{ok}
use algo_trader.Models.{AssetClass}
use algo_trader.Broker.Router.{Choice, Router, select_broker_for, all_clients, add_emergency_client}
use algo_trader.Broker.Router.Reach.{
  occurrences, select_broker_for-reached, add_emergency_client-reached,
}
use algo_trader.Broker.RateLimit.Waiting.{wait_for_etoro_slot-granted}
use algo_trader.Broker.RateLimit.{sleep_of, wait_for_etoro_slot, bucket, Bucket, granted}
use algo_trader.Broker.RateLimit.{try_slot, is_rate_limited, mark_etoro_rate_limited}
use algo_trader.Broker.RateLimit.Cooldown.{mark-blocks}
use algo_trader.Broker.RateLimit.Accounts.{
  Action, passing, reporting, all_sent, Spaced, all_sent-Spaced, mark-other_account,
}

abbrev router : Router
router = record {
  alpaca_client = some 1;
  etoro_client = some 2;
  broker_for_equities = Choice.alpaca;
  broker_for_non_equities = Choice.etoro;
  broker_for_crypto = Choice.alpaca;
  emergency_clients = 1 ∷ [];
}

gold_by_etoro : select_broker_for router AssetClass.gold ≡ ok 2
unfolding select_broker_for
gold_by_etoro = refl

select_broker_for-reached_example : occurrences 2 (all_clients router) ≡ 1
select_broker_for-reached_example = select_broker_for-reached router AssetClass.gold 2 gold_by_etoro

add_emergency_client-reached_example :
    occurrences 2 (all_clients (add_emergency_client (some 2) router)) ≡ 1
add_emergency_client-reached_example = add_emergency_client-reached router 2

-- Requests at most every 750 ms; the second pass of the demo account waits, the live one does not.
abbrev actions : List Action
actions =
    passing "demo" 1_000_000
    ∷ passing "demo" 1_200_000
    ∷ passing "live" 1_300_000
    ∷ passing "demo" 1_900_000
    ∷ []

demo_requests : all_sent 750_000 300_000_000 "demo" actions [] ≡ 1_000_000 ∷ 1_900_000 ∷ []
unfolding all_sent try_slot
demo_requests = refl

all_sent-Spaced_example :
    Spaced 750_000 300_000_000 0 (all_sent 750_000 300_000_000 "demo" actions [])
all_sent-Spaced_example = all_sent-Spaced 750_000 300_000_000 "demo" actions []

-- During the demo account's cooldown: its own passes, one of the live account, one more report.
abbrev cooling : List Action
cooling =
    passing "demo" 9
    ∷ passing "live" 1_300_000
    ∷ reporting "demo" 429 "" true 2_000_000
    ∷ passing "demo" 299_000_000
    ∷ []

live_goes_out :
    all_sent 750_000 300_000_000 "live" cooling
      (mark_etoro_rate_limited 300_000_000 "demo" 429 "" true 5 []).1
    ≡ 1_300_000 ∷ []
unfolding all_sent try_slot mark_etoro_rate_limited is_rate_limited
live_goes_out = refl

mark-blocks_example :
    all_sent 750_000 300_000_000 "demo" cooling
      (mark_etoro_rate_limited 300_000_000 "demo" 429 "" true 5 []).1
    ≡ []
unfolding is_rate_limited
mark-blocks_example =
    mark-blocks "demo" 750_000 300_000_000 429 "" 5 cooling [] refl
      (omega arith, (omega arith, (tt, (omega arith, tt))))

mark-other_account_example :
    (try_slot 750_000 "live" 9 (mark_etoro_rate_limited 300_000_000 "demo" 429 "" true 5 []).1).0
    ≡ (try_slot 750_000 "live" 9 []).0
mark-other_account_example =
    mark-other_account 750_000 300_000_000 "demo" "live" 429 "" true 5 9 [] refl

-- A request at one second, an interval of five, and a clock that is read every two seconds.
abbrev waiting_since : Dict Bucket
waiting_since =
    ("demo", record { last_request_at = 1_000_000; blocked_until = 0; reason = "" }) ∷ []

abbrev every_two_seconds : ℕ → ℕ
every_two_seconds j = 1_000_000 + j * 2_000_000

sleep-le : (n : ℕ) → sleep_of n ≤ 2_000_000
sleep-le n = ground arith

two_seconds_slept :
    (j : ℕ)
    → every_two_seconds j + sleep_of (6_000_000 - every_two_seconds j) ≤ every_two_seconds (suc j)
two_seconds_slept j = omega (arith, sleep-le (6_000_000 - every_two_seconds j))

wait_for_etoro_slot-granted_example :
    let (end, d) = wait_for_etoro_slot 4 5_000_000 "demo" every_two_seconds 0 waiting_since in
    (end ≡ some granted) × (1_000_000 + 5_000_000 ≤ (bucket "demo" d).last_request_at)
wait_for_etoro_slot-granted_example =
    wait_for_etoro_slot-granted 5_000_000 "demo" every_two_seconds 4 0 waiting_since
      (record { last_request_at = 1_000_000; blocked_until = 0; reason = "" }) refl (omega arith)
      two_seconds_slept (omega arith) (omega arith)
