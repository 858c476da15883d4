-- ===== src/Risk/Sizing.antt =====
-- app/risk/position_sizing.py and app/risk/proposal_sizing.py: the notional of a proposal from its
-- stop distance.
use algo_trader.Prelude.{ℕ, not, ◌&&◌, ◌||◌, Option, none, some, ltb, if◌then◌else◌, or_else}
use algo_trader.Result.{Result, ok, err}
use algo_trader.Float.{Float, nought, fmin, nonzero_or}
use algo_trader.Risk.Settings.{RiskSettings, is_live}
use algo_trader.Risk.Rules.{sizing_risk_pct}

pub data SizingError : Type 0 where
  balance_not_positive : SizingError
  price_not_positive : SizingError
  stop_equals_entry : SizingError
  leverage_below_one : SizingError
  -- the model refuses a rounded amount, quantity or risk that is not positive
  result_not_positive : SizingError

pub record PositionSizingResult (F : Type 0) : Type 0 where
  pub amount_usd : F
  pub quantity : F
  pub risk_amount_usd : F

pub data FallbackReason : Type 0 where
  missing_entry_stop_or_equity : FallbackReason

-- The `details` of a sized proposal; the other entries of the dict repeat its inputs.
pub data SizingDetails (F : Type 0) : Type 0 where
  flat_default : Option FallbackReason → SizingDetails F
  risk_based :
      (uncapped cap risk_pct risk_budget effective_risk stop_distance : F) → SizingDetails F

module _ {F : Type 0} ⦃n : Float F⦄ where
  -- `PositionSizingResult(...)`, whose fields are `Field(gt=0)`
  abbrev checked : F → F → F → Result SizingError (PositionSizingResult F)
  checked amount quantity risk =
      if n.lt nought amount && (n.lt nought quantity && n.lt nought risk)
      then ok (record { amount_usd = amount; quantity = quantity; risk_amount_usd = risk })
      else err result_not_positive

  unfoldable pub calculate_position_size :
      F → F → F → F → ℕ → Result SizingError (PositionSizingResult F)
  calculate_position_size account_balance risk_pct entry_price stop_price leverage =
      let risk_budget = n.mul account_balance (n.div risk_pct (n.lit 100 0)) in
      let stop_distance_pct = n.div (n.abs (n.sub entry_price stop_price)) entry_price in
      let gross_exposure = n.div risk_budget stop_distance_pct in
      let amount_usd = n.div gross_exposure (n.of_ℕ leverage) in
      let quantity = n.div gross_exposure entry_price in
      if n.le account_balance nought
      then err balance_not_positive
      else if n.le entry_price nought || n.le stop_price nought
      then err price_not_positive
      else if n.eq entry_price stop_price
      then err stop_equals_entry
      else if ltb leverage 1
      then err leverage_below_one
      else checked (n.round amount_usd 2) (n.round quantity 6) (n.round risk_budget 2)

  -- `float(x or 0.0)`
  abbrev or_nought : Option F → F
  or_nought x = or_else x nought

  abbrev pub flat_amount : RiskSettings F → F
  flat_amount s = nonzero_or s.default_trade_amount_usd (n.lit 1000 0)

  abbrev pub notional_cap : RiskSettings F → F
  notional_cap s = fmin (flat_amount s) (nonzero_or s.max_trade_amount_usd (flat_amount s))

  -- An error is one that `calculate_position_size` raises.
  unfoldable pub risk_based_proposal_notional :
      RiskSettings F → Option F → Option F → Option F → Result SizingError (F × SizingDetails F)
  unfolding calculate_position_size
  risk_based_proposal_notional s entry_price stop_price equity_usd =
      let flat = flat_amount s in
      let cap = notional_cap s in
      let entry = or_nought entry_price in
      let stop = or_nought stop_price in
      let equity = or_nought equity_usd in
      let risk_pct = sizing_risk_pct s (is_live s.execution_mode) in
      if not s.auto_propose_risk_based_sizing
      then ok (flat, flat_default none)
      else if n.le entry nought || n.le stop nought || n.eq entry stop || n.le equity nought
      then ok (flat, flat_default (some missing_entry_stop_or_equity))
      else elim (calculate_position_size equity risk_pct entry stop 1) [
        | err e ↦ err e
        | ok sized ↦
            let amount = n.round (fmin sized.amount_usd cap) 2 in
            let stop_distance_pct = n.mul (n.div (n.abs (n.sub entry stop)) entry) (n.lit 100 0) in
            ok (
              amount,
              risk_based sized.amount_usd cap risk_pct sized.risk_amount_usd
                  (n.round (n.div (n.mul amount stop_distance_pct) (n.lit 100 0)) 2)
                  (n.round stop_distance_pct 4),
            )
      ]
