-- ===== src/Risk/Settings.antt =====
-- The settings of app/runtime_settings.py that the risk gates read.
use algo_trader.Prelude.{ℕ, Bool, true, false}
use algo_trader.Broker.Resolver.{InstrumentSettings}

pub data ExecutionMode : Type 0 where
  paper live : ExecutionMode

abbrev pub is_live : ExecutionMode → Bool
is_live ExecutionMode.live = true
is_live ExecutionMode.paper = false

-- `short_*`
pub record ShortSettings (F : Type 0) : Type 0 where
  pub short_trading_enabled : Bool
  pub short_minimum_account_equity_usd : F
  pub short_require_easy_to_borrow : Bool
  pub short_max_borrow_cost_annual_pct : F
  pub short_require_margin_requirement : Bool

-- Counts are not negative.
pub record RiskSettings (F : Type 0) : Type 0 where
  pub instruments : InstrumentSettings
  pub short : ShortSettings F
  pub max_equity_leverage : ℕ
  pub max_gold_leverage : ℕ
  pub max_open_positions : ℕ
  pub max_open_positions_per_sector : ℕ
  pub max_trades_per_day : ℕ
  pub per_symbol_position_limit : ℕ
  pub max_daily_entries_per_correlation_bucket : ℕ
  pub max_consecutive_losses_before_cooldown : ℕ
  pub loss_limit_includes_unrealized : Bool
  pub max_daily_loss_usd : F
  pub max_weekly_loss_usd : F
  pub kill_switch_enabled : Bool
  pub enable_real_trading : Bool
  pub execution_mode : ExecutionMode
  pub institutional_portfolio_controls_enabled : Bool
  pub portfolio_hard_drawdown_pct : F
  pub portfolio_soft_drawdown_pct : F
  pub portfolio_max_gross_exposure_pct : F
  pub portfolio_max_symbol_exposure_pct : F
  pub portfolio_max_sector_exposure_pct : F
  pub portfolio_max_correlated_exposure_pct : F
  pub portfolio_max_heat_pct : F
  pub max_risk_per_trade_pct : F
  pub portfolio_micro_live_max_risk_per_trade_pct : F
  pub portfolio_future_max_risk_per_trade_pct : F
  pub default_trade_amount_usd : F
  pub max_trade_amount_usd : F
  pub auto_propose_risk_based_sizing : Bool
