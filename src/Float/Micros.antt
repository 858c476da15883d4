-- ===== src/Float/Micros.antt =====
-- A concrete `Float`: whole millionths, truncated. It runs in the tests and shows that the laws of
-- `IsOrdered` can hold.
use mathlib.Core.Path.{◌≡◌}
use algo_trader.Prelude.{ℕ, ◌+◌, ◌-◌, ◌*◌, ◌/◌, ◌^◌, ◌≤◌, true, ◌&&◌, arith, ◌==◌}
use algo_trader.Int.{ℤ, pos, negsuc, pos_part, neg_part, sub_ℕ, ◌+ℤ◌, ◌-ℤ◌, ltb_ℤ, leb_ℤ}
use algo_trader.Float.{Float}
use algo_trader.Float.Order.{IsOrdered}

abbrev pub Micros : Type 0
Micros = ℤ

abbrev one : ℕ
one = 1_000_000

abbrev size : ℤ → ℕ
size a = pos_part a + neg_part a

-- n with the sign of the product of a and b
abbrev with_sign : ℤ → ℤ → ℕ → ℤ
with_sign (pos _) (pos _) n = pos n
with_sign (pos _) (negsuc _) n = sub_ℕ 0 n
with_sign (negsuc _) (pos _) n = sub_ℕ 0 n
with_sign (negsuc _) (negsuc _) n = pos n

abbrev floor_micros : ℤ → ℤ
floor_micros (pos a) = pos (a / one * one)
floor_micros (negsuc a) = sub_ℕ 0 ((a + one) / one * one)

instance abbrev pub micros_float : Float Micros
micros_float = record {
  lit = λ n k. pos (n * one / 10 ^ k);
  of_ℕ = λ n. pos (n * one);
  add = ◌+ℤ◌;
  sub = ◌-ℤ◌;
  mul = λ a b. with_sign a b (size a * size b / one);
  div = λ a b. with_sign a b (size a * one / size b);
  neg = λ a. pos 0 -ℤ a;
  abs = λ a. pos (size a);
  lt = ltb_ℤ;
  le = leb_ℤ;
  eq = λ a b. (pos_part a == pos_part b) && (neg_part a == neg_part b);
  floor = λ a. floor_micros a;
  round = λ a k. let unit = 10 ^ (6 - k) in with_sign a (pos 1) ((size a + unit / 2) / unit * unit);
}

lit_mono_micros : (a b : ℕ) → a ≤ b → leb_ℤ (pos (a * one / 10 ^ 0)) (pos (b * one / 10 ^ 0)) ≡ true
lit_mono_micros a b h = ground arith

pub Micros-IsOrdered : IsOrdered Micros
Micros-IsOrdered = record {
  refl_of_le = λ x y h. ground arith;
  le_trans = λ x y z p q. ground arith;
  le_total = λ x y p q. ground arith;
  lt-eq-not-le = λ x y p q. ground arith;
  le_of_lt = λ x y h. ground arith;
  lt-not-eq = λ x y h. (ground arith, ground arith);
  eq_self = λ x p. ground arith;
  add_nonneg = λ x y p q. ground arith;
  lit_mono = lit_mono_micros;
}
