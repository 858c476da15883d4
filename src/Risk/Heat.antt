-- ===== src/Risk/Heat.antt =====
-- app/risk/volatility_target.py: volatility targeting, fractional Kelly, portfolio heat, the drawdown
-- governor and the time stop.
pub mod Governor
pub mod Tests
use algo_trader.Prelude.{
  ℕ, Bool, false, not, ◌&&◌, ◌||◌, Option, none, some, List, map, leb, ◌==◌, if◌then◌else◌,
}
use algo_trader.Float.{Float, nought, fmin, fmax, fsum}

module _ {F : Type 0} ⦃n : Float F⦄ where
  unfoldable pub volatility_target_quantity : F → F → F → F → F → F → F
  volatility_target_quantity equity target atr price weight max_position_pct =
      let target_vol = n.mul (n.mul equity (fmax weight nought)) (n.div target (n.lit 100 0)) in
      let quantity = n.div target_vol atr in
      let max_shares = n.div (n.mul equity (n.div max_position_pct (n.lit 100 0))) price in
      let capped = if n.lt nought max_position_pct then fmin quantity max_shares else quantity in
      if n.le equity nought || n.le atr nought || n.le price nought || n.le target nought
      then nought
      else fmax capped nought

  unfoldable pub fractional_kelly_weight : F → F → F → F → F
  fractional_kelly_weight win_rate win_loss_ratio fraction cap =
      let rate = if n.lt (n.lit 1 0) win_rate then n.div win_rate (n.lit 100 0) else win_rate in
      let w = fmin (fmax rate nought) (n.lit 1 0) in
      let kelly = n.sub w (n.div (n.sub (n.lit 1 0) w) win_loss_ratio) in
      let scaled = n.mul kelly (fmax fraction nought) in
      if n.le win_loss_ratio nought
      then nought
      else if n.le kelly nought
      then nought
      else fmin scaled (fmax cap nought)

  -- `sum(max(float(r), 0.0) for r in open_risks_usd)`
  unfoldable pub total_risk : List F → F
  total_risk risks = fsum nought (map (λ r. fmax r nought) risks)

  unfoldable pub portfolio_heat_pct : List F → F → F
  unfolding total_risk
  portfolio_heat_pct risks equity =
      if n.le equity nought then nought else n.mul (n.div (total_risk risks) equity) (n.lit 100 0)

  unfoldable pub heat_budget_remaining_usd : List F → F → F → F
  unfolding total_risk
  heat_budget_remaining_usd risks equity max_heat_pct =
      let cap = n.mul equity (n.div max_heat_pct (n.lit 100 0)) in
      if n.le equity nought || n.le max_heat_pct nought
      then nought
      else fmax (n.sub cap (total_risk risks)) nought

  unfoldable pub fits_within_heat : F → List F → F → F → Bool
  unfolding heat_budget_remaining_usd
  fits_within_heat new_risk risks equity max_heat_pct =
      let remaining = heat_budget_remaining_usd risks equity max_heat_pct in
      n.le (fmax new_risk nought) (n.add remaining (n.lit 1 9))

  -- `scaled`: from 1 at `soft` down to `floor` at `hard`.
  unfoldable pub ramp : F → F → F → F → F
  ramp dd soft hard floor =
      let span = n.sub hard soft in
      n.sub (n.lit 1 0) (n.mul (n.div (n.sub dd soft) span) (n.sub (n.lit 1 0) floor))

  unfoldable pub drawdown_governor_multiplier : F → F → F → F → F
  unfolding ramp
  drawdown_governor_multiplier drawdown_pct soft_pct hard_pct floor_pct =
      let dd = n.abs drawdown_pct in
      let soft = n.abs soft_pct in
      let hard = n.abs hard_pct in
      let floor = fmin (fmax floor_pct nought) (n.lit 1 0) in
      let scaled = ramp dd soft hard floor in
      if n.le dd soft
      then n.lit 1 0
      else if n.le hard soft || n.le hard dd
      then floor
      else fmin (fmax scaled floor) (n.lit 1 0)

  unfoldable pub daily_drawdown_pct : F → F → F
  daily_drawdown_pct daily_realized_pnl_usd equity =
      let loss = fmin nought daily_realized_pnl_usd in
      if n.le equity nought then nought else n.mul (n.div (n.neg loss) equity) (n.lit 100 0)

-- `max_bars` of None or 0 disables the stop.
unfoldable pub time_stop_hit : ℕ → Option ℕ → Bool
time_stop_hit bars_held none = false
time_stop_hit bars_held (some max_bars) = not (max_bars == 0) && leb max_bars bars_held
