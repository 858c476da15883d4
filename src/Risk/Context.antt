-- ===== src/Risk/Context.antt =====
-- The account context and the verdict of app/risk/guardrails.py.
use algo_trader.Prelude.{ℕ, String, Bool, true, false, Option, none, some, List}
use algo_trader.Dict.{Dict}
use algo_trader.Models.{OrderSide, AssetClass}
use algo_trader.Broker.Resolver.{ResolveError}
use algo_trader.Risk.Shorting.{ShortBlocker}

pub data AccountMode : Type 0 where
  paper demo real : AccountMode

abbrev pub is_real : AccountMode → Bool
is_real AccountMode.real = true
is_real AccountMode.paper = false
is_real AccountMode.demo = false

pub record RiskContext (F : Type 0) : Type 0 where
  pub account_balance : F
  pub daily_realized_pnl_usd : F
  pub weekly_realized_pnl_usd : F
  pub open_unrealized_pnl_usd : F
  pub open_positions : ℕ
  pub positions_by_symbol : Dict ℕ
  pub exposure_by_symbol_pct : Dict F
  pub exposure_by_sector_pct : Dict F
  pub exposure_by_correlation_bucket_pct : Dict F
  pub gross_exposure_pct : F
  pub correlated_exposure_pct : F
  pub portfolio_drawdown_pct : F
  pub consecutive_losses_today : ℕ
  pub trades_today : ℕ
  pub recently_stopped_symbols : List String
  pub entries_today_by_correlation_bucket : Dict ℕ
  pub open_trade_risks_usd : List F
  pub mode : AccountMode

-- The texts of `reasons`, with what each names.
pub data Reason (F : Type 0) : Type 0 where
  unresolved : ResolveError → Reason F
  leverage_above_cap : ℕ → ℕ → AssetClass → Reason F
  max_open_positions_reached : Reason F
  etoro_live_room : String → Reason F
  max_trades_today_reached : Reason F
  per_symbol_limit_reached : Reason F
  reentry_cooldown : String → Reason F
  bucket_entry_cap_reached : ℕ → String → Reason F
  sector_position_cap_reached : ℕ → String → Reason F
  daily_loss_limit_reached : Reason F
  weekly_loss_limit_reached : Reason F
  consecutive_losses_halt : ℕ → Reason F
  kill_switch_on : Reason F
  hard_drawdown_reached : Reason F
  soft_drawdown_reached : Reason F
  gross_exposure_exceeded : Reason F
  symbol_exposure_exceeded : Reason F
  sector_exposure_exceeded : Reason F
  correlated_exposure_exceeded : Reason F
  short : ShortBlocker → Reason F
  stop_loss_required : Reason F
  trade_risk_above_cap : F → F → Reason F
  heat_above_cap : F → F → Reason F
  real_trading_disabled : Reason F

pub data RoomAuthority : Type 0 where
  paper etoro_live : RoomAuthority

pub record RiskValidationResult (F : Type 0) : Type 0 where
  pub passed : Bool
  pub reasons : List (Reason F)
  pub risk_amount_usd : F
  pub risk_pct_of_balance : F
  pub room_authority : RoomAuthority

-- `etoro_room is None`
abbrev pub is_paper_room : Option (List String) → Bool
is_paper_room none = true
is_paper_room (some _) = false

abbrev pub is_buy : OrderSide → Bool
is_buy OrderSide.buy = true
is_buy OrderSide.sell = false

abbrev pub authority : Option (List String) → RoomAuthority
authority none = RoomAuthority.paper
authority (some _) = RoomAuthority.etoro_live
