-- ===== src/Risk/Heat/Tests.antt =====
-- Runs of app/risk/volatility_target.py.
use algo_trader.Prelude.{ℕ, ◌*◌, ◌≡◌, refl}
use algo_trader.Int.{pos}
use algo_trader.Float.Micros.{Micros, micros_float, Micros-IsOrdered}
use algo_trader.Risk.Heat.{drawdown_governor_multiplier, ramp}
use algo_trader.Risk.Heat.Governor.{IsBetween, drawdown_governor_multiplier-IsBetween}

abbrev pct : ℕ → Micros
pct x = pos (x * 1_000_000)

-- Halfway from 2% to 4%, the size is halfway from 1 to a quarter.
half_way : drawdown_governor_multiplier (pct 3) (pct 2) (pct 4) (pos 250_000) ≡ pos 625_000
unfolding drawdown_governor_multiplier
half_way = refl

drawdown_governor_multiplier-IsBetween_example :
    IsBetween Micros-IsOrdered
      (pos 250_000)
      (pct 1)
      (drawdown_governor_multiplier (pct 3) (pct 2) (pct 4) (pos 250_000))
unfolding ramp
drawdown_governor_multiplier-IsBetween_example =
    drawdown_governor_multiplier-IsBetween Micros-IsOrdered (pct 3) (pct 2) (pct 4) (pos 250_000)
      refl refl
