-- ===== src/Risk/Rules.antt =====
-- app/risk/rules.py: the leverage cap, the risk of a trade, and the cap on it that the sizers use.
use algo_trader.Prelude.{ℕ, Bool, if◌then◌else◌}
use algo_trader.Float.{Float, fmin, nonzero_or}
use algo_trader.Models.{AssetClass}
use algo_trader.Risk.Settings.{RiskSettings}

unfoldable pub leverage_cap_for_asset : AssetClass → ℕ → ℕ → ℕ
leverage_cap_for_asset AssetClass.gold max_equity max_gold = max_gold
leverage_cap_for_asset AssetClass.equity max_equity max_gold = max_equity
leverage_cap_for_asset AssetClass.crypto max_equity max_gold = max_equity
leverage_cap_for_asset AssetClass.unknown max_equity max_gold = max_equity

module _ {F : Type 0} ⦃n : Float F⦄ where
  unfoldable pub estimate_risk_amount : F → F → F → ℕ → F
  estimate_risk_amount entry_price stop_loss amount_usd leverage =
      let stop_distance_pct = n.div (n.abs (n.sub entry_price stop_loss)) entry_price in
      let notional = n.mul amount_usd (n.of_ℕ leverage) in n.mul notional stop_distance_pct

  unfoldable pub effective_max_risk_per_trade_pct : RiskSettings F → Bool → F
  effective_max_risk_per_trade_pct s live =
      let cap = nonzero_or s.max_risk_per_trade_pct (n.lit 1 0) in
      let tighter =
        if live
        then s.portfolio_micro_live_max_risk_per_trade_pct
        else s.portfolio_future_max_risk_per_trade_pct in
      if s.institutional_portfolio_controls_enabled then fmin cap tighter else cap

  abbrev pub sizing_headroom : F
  sizing_headroom = n.lit 98 2

  unfoldable pub sizing_risk_pct : RiskSettings F → Bool → F
  sizing_risk_pct s live = n.mul (effective_max_risk_per_trade_pct s live) sizing_headroom
