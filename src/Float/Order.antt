-- ===== src/Float/Order.antt =====
-- What the theorems use of float comparisons. All of it holds of IEEE 754 doubles, NaN included: a
-- NaN is the value that is not `<=` itself, and the order is total only away from it.
use algo_trader.Prelude.{ℕ, ◌≤◌, ◌≡◌, ◌⊎◌, true, false, not, arith}
use algo_trader.Float.{Float, ◌≼◌, fmin, fmax}

pub record IsOrdered (F : Type 0) ⦃n : Float F⦄ : Type 0 where
  pub refl_of_le : (x y : F) → x ≼ y → (x ≼ x) × (y ≼ y)
  pub le_trans : (x y z : F) → x ≼ y → y ≼ z → x ≼ z
  pub le_total : (x y : F) → x ≼ x → y ≼ y → (x ≼ y) ⊎ (y ≼ x)
  pub lt-eq-not-le : (x y : F) → x ≼ x → y ≼ y → n.lt x y ≡ not (n.le y x)
  pub le_of_lt : (x y : F) → n.lt x y ≡ true → x ≼ y
  pub lt-not-eq : (x y : F) → n.lt x y ≡ true → (n.eq x y ≡ false) × (n.eq y x ≡ false)
  pub eq_self : (x : F) → x ≼ x → n.eq x x ≡ true
  -- Not NaN: only infinities of opposite signs add up to one.
  pub add_nonneg : (x y : F) → n.lit 0 0 ≼ x → n.lit 0 0 ≼ y → n.lit 0 0 ≼ n.add x y
  pub lit_mono : (a b : ℕ) → a ≤ b → n.lit a 0 ≼ n.lit b 0

module _ {F : Type 0} ⦃n : Float F⦄ (laws : IsOrdered F) where
  open laws use {refl_of_le, le_trans, le_total, lt-eq-not-le, le_of_lt}

  -- A comparison `x < y` that fails on numbers gives the other order.
  pub le_of_not_lt : (x y : F) → x ≼ x → y ≼ y → n.lt x y ≡ false → y ≼ x
  le_of_not_lt x y p q h = ground (arith, lt-eq-not-le x y p q)

  pub lt_asymm : (x y : F) → n.lt x y ≡ true → n.lt y x ≡ false
  lt_asymm x y h =
      let below = le_of_lt x y h in
      let (p, q) = refl_of_le x y below in ground (arith, lt-eq-not-le y x q p)

  pub fmin-le_left : (x y : F) → x ≼ x → fmin x y ≼ x
  fmin-le_left x y p = ground (arith, le_of_lt y x)

  pub fmin-le_right : (x y : F) → x ≼ x → y ≼ y → fmin x y ≼ y
  fmin-le_right x y p q = ground (arith, le_of_not_lt y x q p)

  pub le-fmin : (x y z : F) → z ≼ x → z ≼ y → z ≼ fmin x y
  le-fmin x y z p q = ground arith

  pub le-fmax_left : (x y : F) → x ≼ x → x ≼ fmax x y
  le-fmax_left x y p = ground (arith, le_of_lt x y)

  pub le-fmax_right : (x y : F) → x ≼ x → y ≼ y → y ≼ fmax x y
  le-fmax_right x y p q = ground (arith, le_of_not_lt x y p q)

  pub fmax-le : (x y z : F) → x ≼ z → y ≼ z → fmax x y ≼ z
  fmax-le x y z p q = ground arith
