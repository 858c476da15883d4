-- ===== src/Risk/Guardrails.antt =====
-- app/risk/guardrails.py: `RiskManager.validate_order`, the hard gate that every order passes before
-- a proposal is stored and again before it is executed.
pub mod Clear
pub mod Caps
pub mod Tests
use algo_trader.Prelude.{
  ℕ, ◌+◌, String, false, not, ◌&&◌, ◌||◌, Option, none, some, List, [], ◌∷◌, ◌++◌, map, str_eq, ltb,
  leb, if◌then◌else◌, is_some, is_empty, when,
}
use algo_trader.Result.{ok, err}
use algo_trader.Dict.{Dict, get_or}
use algo_trader.Text.{upper, strip, elem, is_nonempty}
use algo_trader.Float.{Float, nought, fmin}
use algo_trader.Models.{TradeOrder}
use algo_trader.Broker.Resolver.{SupportedInstrument, resolve}
use algo_trader.Risk.Settings.{RiskSettings, is_live}
use algo_trader.Risk.Sectors.{
  unknown_sector, unknown_bucket, sector_for_symbol, correlation_bucket_for_symbol,
  gics_sector_for_symbol,
}
use algo_trader.Risk.Context.{
  is_real, RiskContext, Reason, unresolved, leverage_above_cap, max_open_positions_reached,
  etoro_live_room, max_trades_today_reached, per_symbol_limit_reached, reentry_cooldown,
  bucket_entry_cap_reached, sector_position_cap_reached, daily_loss_limit_reached,
  weekly_loss_limit_reached, consecutive_losses_halt, kill_switch_on, hard_drawdown_reached,
  soft_drawdown_reached, gross_exposure_exceeded, symbol_exposure_exceeded,
  sector_exposure_exceeded, correlated_exposure_exceeded, short, stop_loss_required,
  trade_risk_above_cap, heat_above_cap, real_trading_disabled, RoomAuthority, RiskValidationResult,
  is_paper_room, is_buy, authority,
}
use algo_trader.Risk.Rules.{leverage_cap_for_asset, estimate_risk_amount}
use algo_trader.Risk.Heat.{fits_within_heat, portfolio_heat_pct}
use algo_trader.Risk.Shorting.{short_blockers}

-- `sum(count for symbol, count in positions_by_symbol.items() if ...)`
unfoldable pub held_in_sector : String → String → Dict ℕ → ℕ
held_in_sector own gics [] = 0
held_in_sector own gics ((symbol, count) ∷ rest) =
    let counted =
      ltb 0 count
      && (not (str_eq (upper symbol) own) && str_eq (gics_sector_for_symbol symbol) gics) in
    (if counted then count else 0) + held_in_sector own gics rest

module _ {F : Type 0} ⦃n : Float F⦄ where
  unfoldable pub leverage_reasons :
      RiskSettings F → TradeOrder F → SupportedInstrument → List (Reason F)
  leverage_reasons s o i =
      let cap = leverage_cap_for_asset i.asset_class s.max_equity_leverage s.max_gold_leverage in
      when (ltb cap o.leverage) (leverage_above_cap o.leverage cap i.asset_class)

  abbrev pub room_reasons : Option (List String) → List (Reason F)
  room_reasons none = []
  room_reasons (some reasons) = map etoro_live_room reasons

  -- Open positions, trades, entries: the counted limits.
  unfoldable pub count_reasons :
      RiskSettings F → TradeOrder F → RiskContext F → Option (List String) → List (Reason F)
  unfolding held_in_sector upper
  count_reasons s o c room =
      let paper_room = is_paper_room room in
      let symbol = upper o.symbol in
      let bucket_cap = s.max_daily_entries_per_correlation_bucket in
      let bucket = correlation_bucket_for_symbol o.symbol in
      let bucket_entries = get_or c.entries_today_by_correlation_bucket bucket 0 in
      let sector_cap = s.max_open_positions_per_sector in
      let gics = gics_sector_for_symbol o.symbol in
      let held = held_in_sector symbol gics c.positions_by_symbol in
      when (paper_room && leb s.max_open_positions c.open_positions) max_open_positions_reached
      ++ (room_reasons room
          ++ (when (leb s.max_trades_per_day c.trades_today) max_trades_today_reached
              ++ (when (leb s.per_symbol_position_limit (get_or c.positions_by_symbol symbol 0))
                    per_symbol_limit_reached
                  ++ (when (elem symbol c.recently_stopped_symbols) (reentry_cooldown symbol)
                      ++ (when
                            (ltb 0 bucket_cap
                              && (not (str_eq bucket unknown_bucket)
                                  && leb bucket_cap bucket_entries))
                            (bucket_entry_cap_reached bucket_cap bucket)
                          ++ when
                              (paper_room
                                && (ltb 0 sector_cap
                                    && (is_buy o.side
                                        && (not (str_eq gics unknown_sector)
                                            && leb sector_cap held))))
                              (sector_position_cap_reached sector_cap gics))))))

  -- An open loss counts against the limits; an open gain does not.
  abbrev pub open_loss : RiskSettings F → RiskContext F → F
  open_loss s c =
      if s.loss_limit_includes_unrealized then fmin nought c.open_unrealized_pnl_usd else nought

  unfoldable pub loss_reasons : RiskSettings F → RiskContext F → List (Reason F)
  loss_reasons s c =
      when
        (n.le (n.add c.daily_realized_pnl_usd (open_loss s c)) (n.neg (n.abs s.max_daily_loss_usd)))
        daily_loss_limit_reached
      ++ (when
            (n.le (n.add c.weekly_realized_pnl_usd (open_loss s c))
              (n.neg (n.abs s.max_weekly_loss_usd)))
            weekly_loss_limit_reached
          ++ (when (leb s.max_consecutive_losses_before_cooldown c.consecutive_losses_today)
                (consecutive_losses_halt s.max_consecutive_losses_before_cooldown)
              ++ when s.kill_switch_enabled kill_switch_on))

  unfoldable pub drawdown_reasons : RiskSettings F → RiskContext F → List (Reason F)
  drawdown_reasons s c =
      if s.institutional_portfolio_controls_enabled
      then if n.le s.portfolio_hard_drawdown_pct c.portfolio_drawdown_pct
        then hard_drawdown_reached ∷ []
        else when (n.le s.portfolio_soft_drawdown_pct c.portfolio_drawdown_pct)
            soft_drawdown_reached
      else []

  abbrev pub proposed_exposure_pct : TradeOrder F → RiskContext F → F
  proposed_exposure_pct o c = n.mul (n.div o.amount_usd c.account_balance) (n.lit 100 0)

  -- `metadata_sector or sector_for_symbol(order.symbol)`
  unfoldable pub order_sector : TradeOrder F → String
  order_sector o =
      let metadata_sector = strip o.metadata.sector in
      if is_nonempty metadata_sector then metadata_sector else sector_for_symbol o.symbol

  unfoldable pub current_correlated_exposure : TradeOrder F → RiskContext F → F
  current_correlated_exposure o c =
      if is_empty c.exposure_by_correlation_bucket_pct
      then c.correlated_exposure_pct
      else get_or c.exposure_by_correlation_bucket_pct (correlation_bucket_for_symbol o.symbol)
          nought

  unfoldable pub exposure_reasons :
      RiskSettings F → TradeOrder F → RiskContext F → Option (List String) → List (Reason F)
  unfolding order_sector current_correlated_exposure upper
  exposure_reasons s o c room =
      let proposed = proposed_exposure_pct o c in
      let by_symbol = get_or c.exposure_by_symbol_pct (upper o.symbol) nought in
      let by_sector = get_or c.exposure_by_sector_pct (order_sector o) nought in
      if s.institutional_portfolio_controls_enabled && is_paper_room room
      then when (n.lt s.portfolio_max_gross_exposure_pct (n.add c.gross_exposure_pct proposed))
          gross_exposure_exceeded
        ++ (when (n.lt s.portfolio_max_symbol_exposure_pct (n.add by_symbol proposed))
              symbol_exposure_exceeded
            ++ (when (n.lt s.portfolio_max_sector_exposure_pct (n.add by_sector proposed))
                  sector_exposure_exceeded
                ++ when
                    (n.lt s.portfolio_max_correlated_exposure_pct
                      (n.add (current_correlated_exposure o c) proposed))
                    correlated_exposure_exceeded))
      else []

  unfoldable pub risk_cap : RiskSettings F → RiskContext F → F
  risk_cap s c =
      if s.institutional_portfolio_controls_enabled
      then if is_real c.mode || is_live s.execution_mode
        then fmin s.max_risk_per_trade_pct s.portfolio_micro_live_max_risk_per_trade_pct
        else fmin s.max_risk_per_trade_pct s.portfolio_future_max_risk_per_trade_pct
      else s.max_risk_per_trade_pct

  unfoldable pub risk_amount : TradeOrder F → F
  risk_amount o = elim o.stop_loss [
    | none ↦ nought
    | some stop ↦ estimate_risk_amount o.proposed_price stop o.amount_usd o.leverage
  ]

  unfoldable pub risk_pct : TradeOrder F → RiskContext F → F
  unfolding risk_amount
  risk_pct o c = elim o.stop_loss [
    | none ↦ nought
    | some stop ↦ n.mul (n.div (risk_amount o) c.account_balance) (n.lit 100 0)
  ]

  unfoldable pub stop_reasons : RiskSettings F → TradeOrder F → RiskContext F → List (Reason F)
  stop_reasons s o c =
      if is_some o.stop_loss
      then when (n.lt (risk_cap s c) (risk_pct o c))
          (trade_risk_above_cap (risk_pct o c) (risk_cap s c))
        ++ when
            (n.lt nought s.portfolio_max_heat_pct
              && not (
                  fits_within_heat (risk_amount o) c.open_trade_risks_usd c.account_balance
                    s.portfolio_max_heat_pct))
            (heat_above_cap (portfolio_heat_pct c.open_trade_risks_usd c.account_balance)
              s.portfolio_max_heat_pct)
      else stop_loss_required ∷ []

  unfoldable pub mode_reasons : RiskSettings F → RiskContext F → List (Reason F)
  mode_reasons s c = when (is_real c.mode && not s.enable_real_trading) real_trading_disabled

  -- The checks of an order whose symbol resolves, in the order of the code.
  unfoldable pub order_reasons :
      RiskSettings F
      → TradeOrder F
      → RiskContext F
      → Option (List String)
      → SupportedInstrument
      → List (Reason F)
  order_reasons s o c room i =
      leverage_reasons s o i
      ++ (count_reasons s o c room
          ++ (loss_reasons s c
              ++ (drawdown_reasons s c
                  ++ (exposure_reasons s o c room
                      ++ (map short (short_blockers s.short o c.account_balance)
                          ++ (stop_reasons s o c ++ mode_reasons s c))))))

  unfoldable pub validate_order :
      RiskSettings F → TradeOrder F → RiskContext F → Option (List String) → RiskValidationResult F
  unfolding order_reasons risk_amount risk_pct
  validate_order s o c room = elim (resolve s.instruments o.symbol) [
    | err e ↦ record {
      passed = false;
      reasons = unresolved e ∷ [];
      risk_amount_usd = nought;
      risk_pct_of_balance = nought;
      room_authority = RoomAuthority.paper;
    }
    | ok i ↦ record {
      passed = is_empty (order_reasons s o c room i);
      reasons = order_reasons s o c room i;
      risk_amount_usd = n.round (risk_amount o) 2;
      risk_pct_of_balance = n.round (risk_pct o c) 4;
      room_authority = authority room;
    }
  ]
