-- ===== src/Result.antt =====
-- Exceptions as values: a call that returns, or raises an error.
use algo_trader.Prelude.{◌≡◌, refl, sym, ap, ◌∙◌, ◌⊎◌, inl, inr}

pub data Result (E A : Type 0) : Type 0 where
  ok : A → Result E A
  err : E → Result E A

pub Result-cases :
    {E A : Type 0} (r : Result E A) → ((e : E) × (r ≡ err e)) ⊎ ((a : A) × (r ≡ ok a))
Result-cases (ok a) = inr (a, refl)
Result-cases (err e) = inl (e, refl)

module _ {E A : Type 0} where
  value : A → Result E A → A
  value d (ok x) = x
  value d (err x) = d

  pub ok-injective : (a b : A) (r : Result E A) → r ≡ ok a → r ≡ ok b → a ≡ b
  unfolding value
  ok-injective a b r e f = ap (value a) (sym e ∙ f)
