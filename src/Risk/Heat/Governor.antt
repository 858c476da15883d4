-- ===== src/Risk/Heat/Governor.antt =====
-- The drawdown governor of app/risk/volatility_target.py.
use algo_trader.Prelude.{Bool, true, false, arith, if◌then◌else◌}
use algo_trader.Float.{Float, ◌≼◌, nought, fmin, fmax}
use algo_trader.Float.Order.{IsOrdered, fmin-le_right, le-fmin, le-fmax_right}
use algo_trader.Risk.Heat.{ramp, drawdown_governor_multiplier}

module _ {F : Type 0} ⦃n : Float F⦄ (laws : IsOrdered F) where
  open laws use {le_total, le_trans, refl_of_le, lit_mono}

  -- `min(max(floor, 0.0), 1.0)`
  abbrev pub clamped_floor : F → F
  clamped_floor x = fmin (fmax x nought) (n.lit 1 0)

  abbrev pub IsBetween : F → F → F → Type 0
  IsBetween lo hi x = (lo ≼ x) × (x ≼ hi)

  clamped_floor-IsBetween : (x : F) → x ≼ x → IsBetween nought (n.lit 1 0) (clamped_floor x)
  clamped_floor-IsBetween x p =
      let unit = lit_mono 0 1 (omega arith) in
      let (zero_number, one_number) = refl_of_le _ _ unit in
      let above = le-fmax_right laws x nought p zero_number in
      let number = (refl_of_le _ _ above).1 in
      (le-fmin laws _ _ _ above unit, fmin-le_right laws _ _ number one_number)

  ramp_clamp-IsBetween :
      (f r : F)
      → IsBetween nought (n.lit 1 0) f
      → r ≼ r
      → IsBetween f (n.lit 1 0) (fmin (fmax r f) (n.lit 1 0))
  ramp_clamp-IsBetween f r between p =
      let f_number = (refl_of_le _ _ between.1).0 in
      let one_number = (refl_of_le _ _ between.1).1 in
      let above = le-fmax_right laws r f p f_number in
      let number = (refl_of_le _ _ above).1 in
      (le-fmin laws _ _ _ above between.1, fmin-le_right laws _ _ number one_number)

  choice-IsBetween :
      (shallow deep : Bool) (f v u : F)
      → IsBetween f u f
      → u ≼ u
      → IsBetween f u v
      → IsBetween f u (if shallow then u else if deep then f else v)
  choice-IsBetween true deep f v u p q r = (p.1, q)
  choice-IsBetween false true f v u p q r = p
  choice-IsBetween false false f v u p q r = r

  -- For a floor that is a number, and an interpolated value that is one, the multiplier lies between
  -- the floor clamped to [0, 1] and 1: the governor never sizes up, and never below the floor.
  pub drawdown_governor_multiplier-IsBetween :
      (drawdown soft hard floor : F)
      → floor ≼ floor
      → ramp (n.abs drawdown) (n.abs soft) (n.abs hard) (clamped_floor floor)
        ≼ ramp (n.abs drawdown) (n.abs soft) (n.abs hard) (clamped_floor floor)
      → IsBetween
          (clamped_floor floor)
          (n.lit 1 0)
          (drawdown_governor_multiplier drawdown soft hard floor)
  unfolding drawdown_governor_multiplier
  drawdown_governor_multiplier-IsBetween drawdown soft hard floor p q =
      let between = clamped_floor-IsBetween floor p in
      let ramped = ramp_clamp-IsBetween (clamped_floor floor) _ between q in
      let same = refl_of_le _ _ between.1 in
      choice-IsBetween _ _ (clamped_floor floor) _ (n.lit 1 0) (same.0, between.1) same.1 ramped
