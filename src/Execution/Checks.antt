-- ===== src/Execution/Checks.antt =====
-- app/execution/coordinator.py: what the coordinator checks of an approved proposal before an order
-- leaves: the automation flags, the account, the quote, the bracket, and the drawdown governor.
use algo_trader.Prelude.{
  ℕ, ◌-◌, ◌*◌, ◌%◌, String, Bool, true, false, not, ◌&&◌, Option, none, some, List, [], ◌∷◌, ◌++◌,
  map, str_eq, ltb, leb, if◌then◌else◌, is_some, or_else, is_empty, when,
}
use algo_trader.Result.{Result, ok, err}
use algo_trader.Text.{lower, strip, starts_at, is_nonempty, concat}
use algo_trader.Float.{Float, nought, fmax, nonzero_or}
use algo_trader.Models.{TradeOrder, TradeProposal, Signal}
use algo_trader.Risk.Settings.{is_live}
use algo_trader.Risk.Context.{RiskContext, is_buy}
use algo_trader.Risk.Heat.{daily_drawdown_pct, drawdown_governor_multiplier}
use algo_trader.Automation
use algo_trader.Automation.{set_account_verified, trip_circuit_breaker}
use algo_trader.Automation.Blocked.{
  Blocker, kill_switch_enabled, approval_must_remain_enabled, enable_real_trading_false,
  paper_trading_in_live_mode, execution_blockers,
}
use algo_trader.Broker.Router.{Choice, NoBroker, choice_for, select_broker_for}
use algo_trader.Execution.{
  ExecutionSettings, Coordinator, Outside, World, Quote, Identity, Failure, raised, AccountReason,
  QuoteReason, BracketReason, Objection,
}
use algo_trader.Execution.Attempts

abbrev is_kill_switch : Blocker → Bool
is_kill_switch kill_switch_enabled = true
is_kill_switch _ = false

unfoldable pub without_kill_switch : List Blocker → List Blocker
without_kill_switch [] = []
without_kill_switch (b ∷ bs) =
    let rest = without_kill_switch bs in if is_kill_switch b then rest else b ∷ rest

-- Microseconds of a day and of a minute.
abbrev pub day : ℕ
day = 86_400_000_000

abbrev pub minute : ℕ
minute = 60_000_000

-- `utc_now() - timedelta(minutes=max(timeout, 1))`
unfoldable pub stale_before : ℕ → ℕ → ℕ
stale_before timeout_minutes now =
    now - (if ltb timeout_minutes 1 then 1 else timeout_minutes) * minute

-- `replace(hour=0, minute=0, second=0, microsecond=0)`
unfoldable pub start_of_day : ℕ → ℕ
start_of_day now = now - now % day

-- The provider that the source of the quote must start with.
unfoldable pub provider_reasons : Choice → String → List QuoteReason
unfolding lower starts_at
provider_reasons Choice.alpaca source =
    when (not (starts_at "alpaca" (lower source))) QuoteReason.provider_not_alpaca
provider_reasons Choice.etoro source =
    when (not (starts_at "etoro" (lower source))) QuoteReason.provider_not_etoro
provider_reasons Choice.nobody source = []

unfoldable pub support_reasons : Option (Result String Bool) → List AccountReason
support_reasons none = []
support_reasons (some (ok supported)) = when (not supported) AccountReason.symbol_not_supported
support_reasons (some (err e)) = AccountReason.asset_check_failed ∷ []

module _ {F : Type 0} where
  -- The automation service's blockers, or the coordinator's own live locks.
  unfoldable pub automation_blockers : Coordinator F → Automation.World → List Blocker
  unfolding execution_blockers without_kill_switch
  automation_blockers c w = elim c.automation [
    | some ready ↦
        let blockers = execution_blockers ready c.settings.automation w in
        if c.settings.automation.kill_switch_enabled then without_kill_switch blockers else blockers
    | none ↦
        if is_live c.settings.risk.execution_mode
        then (when (not c.settings.automation.require_approval) approval_must_remain_enabled
            ++ (when (not c.settings.automation.enable_real_trading) enable_real_trading_false
                ++ when c.settings.automation.paper_trading_enabled paper_trading_in_live_mode))
        else []
  ]

  -- `_select_broker`: the client and the broker's name
  unfoldable pub select_broker : Coordinator F → TradeProposal F → Result NoBroker (ℕ × Choice)
  unfolding select_broker_for choice_for
  select_broker c p = elim c.router [
    | none ↦ ok (c.trader_broker, Choice.etoro)
    | some r ↦ elim (select_broker_for r p.order.asset_class) [
      | err e ↦ err e
      | ok client ↦ ok (client, choice_for r p.order.asset_class)
    ]
  ]

  unfoldable pub can_bypass_entry_drift_for_smoke : Coordinator F → TradeProposal F → Bool
  unfolding lower
  can_bypass_entry_drift_for_smoke c p =
      not (is_live c.settings.risk.execution_mode)
      && (not c.settings.risk.enable_real_trading
          && str_eq (lower (or_else p.order.strategy_name "")) "manual_smoke")

  -- On a mismatch: the account is no longer verified, and the breaker trips without a stop.
  unfoldable pub distrusted :
      Option (Automation.World → Bool)
      → Coordinator F
      → ℕ
      → String
      → String
      → Automation.World
      → Automation.World
  unfolding set_account_verified trip_circuit_breaker
  distrusted none c now expected actual a = a
  distrusted (some ready) c now expected actual a =
      trip_circuit_breaker c.settings.automation c.emergency_clients now
        (concat "account_mismatch:expected=" (concat expected (concat ":actual=" actual))) false
        (set_account_verified false a)

  unfoldable pub distrust : Coordinator F → ℕ → String → String → World F → World F
  unfolding distrusted
  distrust c now expected actual w = record w {
    automation = distrusted c.automation c now expected actual w.automation;
  }

  -- What `get_account_identity` shows, where an account is expected.
  unfoldable pub identity_check :
      Coordinator F
      → ℕ
      → String
      → Option (Result String Identity)
      → World F
      → Result (Failure F) (List AccountReason) × World F
  unfolding distrust
  identity_check c now expected none w = (ok [], w)
  identity_check c now expected (some (err e)) w =
      if is_nonempty expected then (err (raised e), w) else (ok [], w)
  identity_check c now expected (some (ok identity)) w =
      if not (is_nonempty expected)
      then (ok [], w)
      else if str_eq identity.account_number expected
      then (ok (when identity.trading_blocked AccountReason.trading_blocked), w)
      else (
        ok (
            AccountReason.account_mismatch
            ∷ when identity.trading_blocked AccountReason.trading_blocked),
        distrust c now expected identity.account_number w,
      )

  abbrev pub with_support :
      Option (Result String Bool)
      → Result (Failure F) (List AccountReason) × World F
      → Result (Failure F) (List AccountReason) × World F
  with_support supported (err e, w) = (err e, w)
  with_support supported (ok reasons, w) = (ok (reasons ++ support_reasons supported), w)

  unfoldable pub account_validation_reasons :
      Coordinator F
      → Outside F
      → Choice
      → World F
      → Result (Failure F) (List AccountReason) × World F
  unfolding identity_check support_reasons strip
  account_validation_reasons c o Choice.alpaca w = with_support o.broker.is_supported_equity (
      identity_check c o.tripped (strip c.settings.automation.expected_account_number)
        o.broker.get_account_identity w)
  account_validation_reasons c o Choice.etoro w = (ok [], w)
  account_validation_reasons c o Choice.nobody w = (ok [], w)

module _ {F : Type 0} ⦃n : Float F⦄ where
  -- `a or rest`
  abbrev pub price_or : Option F → F → F
  price_or none rest = rest
  price_or (some x) rest = nonzero_or x rest

  unfoldable pub quote_price : Quote F → TradeProposal F → F
  quote_price q p =
      price_or q.last_execution (price_or q.ask (price_or q.bid p.order.proposed_price))

  unfoldable pub quote_drift_bps : F → F → F
  quote_drift_bps price proposed =
      n.mul (n.abs (n.div (n.sub price proposed) (fmax proposed (n.lit 1 2)))) (n.lit 10000 0)

  -- `age is not None and age > limit`
  abbrev pub is_older : Option F → F → Bool
  is_older none limit = false
  is_older (some age) limit = n.lt limit age

  unfoldable pub quote_validation_reasons :
      ExecutionSettings F → Quote F → Choice → List QuoteReason
  unfolding provider_reasons
  quote_validation_reasons s q name =
      provider_reasons name q.source
      ++ (when q.quote_derived_from_history QuoteReason.not_direct
          ++ (when (is_older q.data_age_seconds s.max_market_data_age_seconds) QuoteReason.too_old
              ++ when (not (is_some q.last_execution) && not (is_some q.ask)) QuoteReason.missing))

  unfoldable pub count_and_drift :
      Coordinator F → Outside F → TradeProposal F → F → World F → List Objection
  unfolding start_of_day quote_drift_bps can_bypass_entry_drift_for_smoke Attempts.count_since
  count_and_drift c o p price w =
      when
        (leb c.settings.risk.max_trades_per_day
          (Attempts.count_since (start_of_day o.today) w.executions))
        Objection.max_trades_per_day_reached
      ++ when
          (n.lt c.settings.execution_max_entry_drift_bps
              (quote_drift_bps price p.order.proposed_price)
            && not (can_bypass_entry_drift_for_smoke c p))
          Objection.entry_drift_too_large

  -- `validation_reasons`, given those of the automation and of the account
  unfoldable pub objections :
      Coordinator F
      → Outside F
      → TradeProposal F
      → Choice
      → Quote F
      → List Blocker
      → List AccountReason
      → World F
      → List Objection
  unfolding quote_validation_reasons count_and_drift quote_price
  objections c o p name q blockers account w =
      map Objection.automation blockers
      ++ (map Objection.account account
          ++ (map Objection.quote (quote_validation_reasons c.settings q name)
              ++ (map Objection.direction o.direction
                  ++ (map Objection.held o.held ++ count_and_drift c o p (quote_price q p) w))))

  -- `_apply_drawdown_governor`, on the order in memory
  unfoldable pub governed : ExecutionSettings F → RiskContext F → TradeOrder F → TradeOrder F
  unfolding daily_drawdown_pct drawdown_governor_multiplier
  governed s x o =
      let multiplier =
        drawdown_governor_multiplier (daily_drawdown_pct x.daily_realized_pnl_usd x.account_balance)
          s.drawdown_governor_soft_pct s.drawdown_governor_hard_pct s.drawdown_governor_floor in
      if not s.drawdown_governor_enabled
      then o
      else if n.le (n.lit 1 0) multiplier
      then o
      else record o { amount_usd = n.round (n.mul o.amount_usd multiplier) 2 }

  -- `price is not None and test(price)`
  abbrev pub on_price : (F → Bool) → Option F → Bool
  on_price test none = false
  on_price test (some x) = test x

  unfoldable pub bracket_shape_reasons : TradeOrder F → F → List BracketReason
  bracket_shape_reasons o price =
      when (not (is_buy o.side)) BracketReason.long_entries_only
      ++ (when (not (is_some o.stop_loss)) BracketReason.stop_loss_missing
          ++ (when (not (is_some o.take_profit)) BracketReason.take_profit_missing
              ++ (when (on_price (λ x. n.le price x) o.stop_loss)
                    BracketReason.stop_loss_not_below_entry
                  ++ when (on_price (λ x. n.le x price) o.take_profit)
                      BracketReason.take_profit_not_above_entry)))

  -- The reward to risk at the quote, where both prices are there.
  unfoldable pub is_poor : Option F → Option F → F → F → Bool
  is_poor (some stop) (some take) price least =
      n.lt (n.div (n.sub take price) (n.sub price stop)) least
  is_poor none take price least = false
  is_poor (some stop) none price least = false

  unfoldable pub alpaca_bracket_reasons : TradeOrder F → F → F → List BracketReason
  unfolding bracket_shape_reasons is_poor
  alpaca_bracket_reasons o price least =
      let shape = bracket_shape_reasons o price in
      if is_empty shape
      then when (n.lt nought least && is_poor o.stop_loss o.take_profit price least)
          BracketReason.reward_to_risk_below_min_at_quote
      else shape

abbrev signal_timeframe : {F : Type 0} → Option (Signal F) → Option String
signal_timeframe none = none
signal_timeframe (some s) = if is_nonempty (or_else s.timeframe "") then s.timeframe else none

-- `order_meta.get("timeframe") or signal_meta.get("timeframe") or None`
unfoldable pub proposal_timeframe : {F : Type 0} → TradeProposal F → Option String
proposal_timeframe p = elim p.order.metadata.timeframe [
  | some t ↦ if is_nonempty t then some t else signal_timeframe p.signal
  | none ↦ signal_timeframe p.signal
]
