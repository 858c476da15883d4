-- ===== src/Risk/Guardrails/Tests.antt =====
-- Runs of app/risk/guardrails.py on one order, and the theorems on it at that order.
use algo_trader.Prelude.{ℕ, ◌*◌, ◌≡◌, refl, ◌↔◌, true, false, ◌||◌, none, some, [], ◌∷◌}
use algo_trader.Result.{ok}
use algo_trader.Int.{pos}
use algo_trader.Float.Micros.{Micros, micros_float}
use algo_trader.Models.{OrderSide, AssetClass, Metadata, TradeOrder}
use algo_trader.Broker.Resolver.{SupportedInstrument, resolve}
use algo_trader.Risk.Settings.{RiskSettings, ExecutionMode, is_live}
use algo_trader.Risk.Context.{AccountMode, RiskContext, max_open_positions_reached, is_real}
use algo_trader.Risk.Rules.{
  effective_max_risk_per_trade_pct, estimate_risk_amount, leverage_cap_for_asset,
}
use algo_trader.Risk.Sectors.{correlation_bucket_for_symbol}
use algo_trader.Risk.Shorting.{short_blockers}
use algo_trader.Risk.Heat.{fits_within_heat}
use algo_trader.Risk.Guardrails.{
  validate_order, risk_cap, leverage_reasons, count_reasons, loss_reasons, drawdown_reasons,
  exposure_reasons, stop_reasons, mode_reasons,
}
use algo_trader.Risk.Guardrails.Clear.{OrderClear, validate_order-passed_iff}
use algo_trader.Risk.Guardrails.Caps.{
  risk_cap-eq-effective, validate_order-live_room, validate_order-objection,
}

abbrev pub usd : ℕ → Micros
usd x = pos (x * 1_000_000)

abbrev pub settings : RiskSettings Micros
settings = record {
  instruments = record {
    blocked_instruments = [];
    allowed_instruments = "NVDA" ∷ [];
    crypto_trading_enabled = false;
    crypto_symbols = [];
  };
  short = record {
    short_trading_enabled = false;
    short_minimum_account_equity_usd = usd 2_000;
    short_require_easy_to_borrow = true;
    short_max_borrow_cost_annual_pct = usd 5;
    short_require_margin_requirement = true;
  };
  max_equity_leverage = 1;
  max_gold_leverage = 1;
  max_open_positions = 3;
  max_open_positions_per_sector = 0;
  max_trades_per_day = 10;
  per_symbol_position_limit = 1;
  max_daily_entries_per_correlation_bucket = 2;
  max_consecutive_losses_before_cooldown = 3;
  loss_limit_includes_unrealized = true;
  max_daily_loss_usd = usd 150;
  max_weekly_loss_usd = usd 400;
  kill_switch_enabled = false;
  enable_real_trading = false;
  execution_mode = ExecutionMode.paper;
  institutional_portfolio_controls_enabled = false;
  portfolio_hard_drawdown_pct = usd 8;
  portfolio_soft_drawdown_pct = usd 5;
  portfolio_max_gross_exposure_pct = usd 100;
  portfolio_max_symbol_exposure_pct = usd 20;
  portfolio_max_sector_exposure_pct = usd 40;
  portfolio_max_correlated_exposure_pct = usd 40;
  portfolio_max_heat_pct = usd 6;
  max_risk_per_trade_pct = usd 1;
  portfolio_micro_live_max_risk_per_trade_pct = usd 1;
  portfolio_future_max_risk_per_trade_pct = usd 1;
  default_trade_amount_usd = usd 1_000;
  max_trade_amount_usd = usd 1_000;
  auto_propose_risk_based_sizing = true;
}

abbrev pub plain_metadata : Metadata Micros
plain_metadata = record {
  opens_short = false;
  easy_to_borrow = false;
  borrow_cost_annual_pct = none;
  margin_requirement_pct = none;
  sector = "";
  timeframe = none;
  paper_only = false;
}

abbrev pub order : TradeOrder Micros
order = record {
  symbol = "NVDA";
  side = OrderSide.buy;
  amount_usd = usd 500;
  leverage = 1;
  proposed_price = usd 100;
  stop_loss = some (usd 95);
  take_profit = some (usd 110);
  asset_class = AssetClass.equity;
  broker_symbol = none;
  strategy_name = none;
  rationale = "";
  metadata = plain_metadata;
}

abbrev pub context : RiskContext Micros
context = record {
  account_balance = usd 10_000;
  daily_realized_pnl_usd = usd 0;
  weekly_realized_pnl_usd = usd 0;
  open_unrealized_pnl_usd = usd 0;
  open_positions = 0;
  positions_by_symbol = [];
  exposure_by_symbol_pct = [];
  exposure_by_sector_pct = [];
  exposure_by_correlation_bucket_pct = [];
  gross_exposure_pct = usd 0;
  correlated_exposure_pct = usd 0;
  portfolio_drawdown_pct = usd 0;
  consecutive_losses_today = 0;
  trades_today = 0;
  recently_stopped_symbols = [];
  entries_today_by_correlation_bucket = [];
  open_trade_risks_usd = [];
  mode = AccountMode.paper;
}

pub passes : (validate_order settings order context none).passed ≡ true
unfolding validate_order resolve leverage_reasons leverage_cap_for_asset count_reasons
    correlation_bucket_for_symbol loss_reasons drawdown_reasons exposure_reasons short_blockers
    stop_reasons risk_cap estimate_risk_amount fits_within_heat mode_reasons
passes = refl

full_account_fails :
    (validate_order settings order (record context { open_positions = 3 }) none).reasons
    ≡ max_open_positions_reached ∷ []
unfolding validate_order resolve leverage_reasons leverage_cap_for_asset count_reasons
    correlation_bucket_for_symbol loss_reasons drawdown_reasons exposure_reasons short_blockers
    stop_reasons risk_cap estimate_risk_amount fits_within_heat mode_reasons
full_account_fails = refl

validate_order-passed_iff_example : ((validate_order settings order context none).passed ≡ true) ↔ (
    (i : SupportedInstrument) × (resolve settings.instruments order.symbol ≡ ok i)
    × OrderClear settings order context none i)
validate_order-passed_iff_example = validate_order-passed_iff settings order context none

validate_order-live_room_example : (validate_order settings order context (some [])).passed ≡ true
validate_order-live_room_example = validate_order-live_room settings order context passes

validate_order-objection_example :
    (validate_order settings order context (some ("slots full" ∷ []))).passed ≡ false
validate_order-objection_example = validate_order-objection settings order context "slots full" []

risk_cap-eq-effective_example :
    risk_cap settings context
    ≡ effective_max_risk_per_trade_pct settings
        (is_real context.mode || is_live settings.execution_mode)
risk_cap-eq-effective_example = risk_cap-eq-effective settings context refl
