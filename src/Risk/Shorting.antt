-- ===== src/Risk/Shorting.antt =====
-- app/risk/shorting.py: the controls on short entries.
use algo_trader.Prelude.{
  Bool, true, false, not, ◌&&◌, ◌||◌, Option, none, some, List, [], ◌∷◌, ◌++◌, if◌then◌else◌,
  is_some, when,
}
use algo_trader.Float.{Float}
use algo_trader.Models.{TradeOrder, OrderSide}
use algo_trader.Risk.Settings.{ShortSettings}

pub data ShortBlocker : Type 0 where
  short_trading_disabled : ShortBlocker
  short_minimum_account_equity_not_met : ShortBlocker
  short_not_easy_to_borrow : ShortBlocker
  short_borrow_cost_missing : ShortBlocker
  short_borrow_cost_above_limit : ShortBlocker
  short_margin_requirement_missing : ShortBlocker

abbrev pub is_sell : OrderSide → Bool
is_sell OrderSide.sell = true
is_sell OrderSide.buy = false

module _ {F : Type 0} ⦃n : Float F⦄ where
  abbrev pub borrow_blockers : F → Option F → List ShortBlocker
  borrow_blockers limit none = short_borrow_cost_missing ∷ []
  borrow_blockers limit (some cost) = when (n.lt limit cost) short_borrow_cost_above_limit

  unfoldable pub short_blockers : ShortSettings F → TradeOrder F → F → List ShortBlocker
  short_blockers s o account_equity_usd =
      if not (is_sell o.side) || not o.metadata.opens_short
      then []
      else when (not s.short_trading_enabled) short_trading_disabled
        ++ (when (n.lt account_equity_usd s.short_minimum_account_equity_usd)
              short_minimum_account_equity_not_met
            ++ (when (s.short_require_easy_to_borrow && not o.metadata.easy_to_borrow)
                  short_not_easy_to_borrow
                ++ (borrow_blockers s.short_max_borrow_cost_annual_pct
                      o.metadata.borrow_cost_annual_pct
                    ++ when
                        (s.short_require_margin_requirement
                          && not (is_some o.metadata.margin_requirement_pct))
                        short_margin_requirement_missing)))
