-- ===== src/Float.antt =====
-- Python's `float`, as far as the program uses it: literals, arithmetic, comparisons, rounding.
pub mod Order
pub mod Micros
use algo_trader.Prelude.{ℕ, ◌≡◌, Bool, true, List, [], ◌∷◌, if◌then◌else◌}

pub record Float (F : Type 0) : Type 0 where
  -- `lit n k` is the literal n / 10^k.
  pub lit : ℕ → ℕ → F
  -- `float(n)` of an integer that is not negative.
  pub of_ℕ : ℕ → F
  pub add : F → F → F
  pub sub : F → F → F
  pub mul : F → F → F
  pub div : F → F → F
  pub neg : F → F
  pub abs : F → F
  pub lt : F → F → Bool
  pub le : F → F → Bool
  pub eq : F → F → Bool
  -- `math.floor(x)`, as a float
  pub floor : F → F
  -- `round(x, k)`
  pub round : F → ℕ → F

module _ {F : Type 0} ⦃n : Float F⦄ where
  abbrev pub nought : F
  nought = n.lit 0 0

  -- `min(a, b)` and `max(a, b)`: the first, unless the second is smaller or larger.
  abbrev pub fmin : F → F → F
  fmin a b = if n.lt b a then b else a

  abbrev pub fmax : F → F → F
  fmax a b = if n.lt a b then b else a

  -- `x or d`
  abbrev pub nonzero_or : F → F → F
  nonzero_or x d = if n.eq x (n.lit 0 0) then d else x

  -- `sum(xs)` from an accumulator, added from the left.
  abbrev pub fsum : F → List F → F
  fsum acc [] = acc
  fsum acc (x ∷ xs) = fsum (n.add acc x) xs

infix 4 ◌≼◌
abbrev pub ◌≼◌ : {F : Type 0} ⦃n : Float F⦄ → F → F → Type 0
◌≼◌ ⦃n⦄ x y = n.le x y ≡ true
