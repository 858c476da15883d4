-- ===== src/Broker/RateLimit.antt =====
-- app/broker/etoro_rate_limit.py: the throttle and the cooldown of the eToro clients, per account. Times
-- are the monotonic clock's and, with durations, microseconds; the key that stands for an account, a
-- hash in the code, is an argument.
pub mod Accounts
pub mod Waiting
pub mod Cooldown
use algo_trader.Prelude.{
  ℕ, zero, suc, ◌+◌, ◌-◌, String, Bool, true, false, not, ◌&&◌, ◌||◌, Option, none, some, ltb, leb,
  ◌==◌, if◌then◌else◌, is_some, or_else,
}
use algo_trader.Dict.{Dict, lookup, insert}
use algo_trader.Text.{lower, contains}

pub record Bucket : Type 0 where
  pub last_request_at : ℕ
  pub blocked_until : ℕ
  pub reason : String

abbrev pub new_bucket : Bucket
new_bucket = record { last_request_at = 0; blocked_until = 0; reason = "" }

abbrev pub bucket : String → Dict Bucket → Bucket
bucket key d = or_else (lookup key d) new_bucket

-- `_state.setdefault(key, ...)`
unfoldable pub set_default : String → Dict Bucket → Dict Bucket
set_default key d = if is_some (lookup key d) then d else insert key new_bucket d

-- One pass of the loop of `wait_for_etoro_slot`: it raises, returns, or sleeps and goes on.
pub data Pass : Type 0 where
  rate_limited : ℕ → String → Pass
  granted : Pass
  waiting : ℕ → Pass

unfoldable pub pass_at : ℕ → Bucket → ℕ → Pass
pass_at min_interval b now =
    if ltb now b.blocked_until
    then rate_limited (b.blocked_until - now) b.reason
    else if leb (b.last_request_at + min_interval) now
    then granted
    else waiting (b.last_request_at + min_interval - now)

-- What the pass writes.
unfoldable pub after_pass : String → ℕ → Pass → Dict Bucket → Dict Bucket
after_pass key now granted d = insert key (record (bucket key d) { last_request_at = now }) d
after_pass key now (rate_limited left reason) d = d
after_pass key now (waiting left) d = d

unfoldable pub try_slot : ℕ → String → ℕ → Dict Bucket → Pass × Dict Bucket
unfolding pass_at after_pass set_default
try_slot min_interval key now d =
    let d' = set_default key d in
    let pass = pass_at min_interval (bucket key d') now in (pass, after_pass key now pass d')

-- What follows a pass: the sleep and the later passes, or the end of the loop.
unfoldable pub unless_waiting :
    Pass → Dict Bucket → Option Pass × Dict Bucket → Option Pass × Dict Bucket
unless_waiting (rate_limited left reason) d rest = (some (rate_limited left reason), d)
unless_waiting granted d rest = (some granted, d)
unless_waiting (waiting left) d rest = rest

-- The longest sleep.
abbrev pub longest_sleep : ℕ
longest_sleep = 2_000_000

-- `min(wait_seconds, 2.0)`
abbrev pub sleep_of : ℕ → ℕ
sleep_of left = if ltb longest_sleep left then longest_sleep else left

-- The loop from its pass i on, with the clock's reading at each pass and fuel; `none` means that the
-- fuel ran out.
unfoldable pub wait_for_etoro_slot :
    ℕ → ℕ → String → (ℕ → ℕ) → ℕ → Dict Bucket → Option Pass × Dict Bucket
unfolding try_slot unless_waiting
wait_for_etoro_slot zero min_interval key reading i d = (none, d)
wait_for_etoro_slot (suc fuel) min_interval key reading i d =
    let now = try_slot min_interval key (reading i) d in
    let later = wait_for_etoro_slot fuel min_interval key reading (suc i) now.1 in
    unless_waiting now.0 now.1 later

unfoldable pub etoro_cooldown_remaining : String → ℕ → Dict Bucket → ℕ × Dict Bucket
unfolding set_default
etoro_cooldown_remaining key now d = ((bucket key d).blocked_until - now, set_default key d)

unfoldable pub is_rate_limited : ℕ → String → Bool
unfolding contains lower
is_rate_limited status_code body =
    status_code == 429
    || (contains "cloudflare" (lower body) && contains "access denied" (lower body))

abbrev pub limit_reason : String → String
limit_reason body =
    if contains "cloudflare" (lower body) then "cloudflare_access_denied" else "http_429"

-- `max(30.0, float(setting or 300))`
abbrev pub cooldown_of : ℕ → ℕ
cooldown_of setting =
    let chosen = if setting == 0 then 300_000_000 else setting in
    if ltb 30_000_000 chosen then chosen else 30_000_000

abbrev pub blocked : ℕ → String → Bucket → Bucket
blocked until reason b = record b {
  blocked_until = if ltb b.blocked_until until then until else b.blocked_until;
  reason = reason;
}

unfoldable pub mark_etoro_rate_limited :
    ℕ → String → ℕ → String → Bool → ℕ → Dict Bucket → Bool × Dict Bucket
unfolding is_rate_limited set_default
mark_etoro_rate_limited setting key status_code body mark now d =
    if not (is_rate_limited status_code body) then (false, d) else if not mark then (true, d) else (
      true,
      insert key (blocked (now + cooldown_of setting) (limit_reason body) (bucket key d))
          (set_default key d),
    )
