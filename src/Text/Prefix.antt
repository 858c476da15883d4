-- ===== src/Text/Prefix.antt =====
-- Texts with different fixed prefixes are different, whatever follows the prefixes.
use Prim.Native.Char.{code}
use Prim.Native.String.append
use mathlib.Core.Bool.{false≢true}
use algo_trader.Prelude.{
  ℕ, String, ◌≡◌, refl, sym, ap, ◌∙◌, inl, inr, true, false, arith, str_eq, eq_iff, ◌==◌,
  Bool-cases,
}
use algo_trader.Text.{starts_at, concat}

code_self : (n : ℕ) → (n == n) ≡ true
code_self n = ground arith

pub starts_at-concat : (p s : String) → starts_at p (concat p s) ≡ true
unfolding starts_at
starts_at-concat String.[] s = refl
starts_at-concat (String.◌∷◌ c p) s =
    rw (append.cons c p s, code_self (code c)) (starts_at-concat p s)

-- A text that does not begin with a prefix is no text that does.
pub str_eq-concat-false : (k p s : String) → starts_at p k ≡ false → str_eq k (concat p s) ≡ false
str_eq-concat-false k p s h = elim (Bool-cases (str_eq k (concat p s))) [
  | inl e ↦
      let same = (eq_iff k (concat p s)).0 e in
      absurd (false≢true (sym h ∙ ap (starts_at p) same ∙ starts_at-concat p s))
  | inr e ↦ e
]

pub concat-str_eq-false : (k p s : String) → starts_at p k ≡ false → str_eq (concat p s) k ≡ false
concat-str_eq-false k p s h = elim (Bool-cases (str_eq (concat p s) k)) [
  | inl e ↦
      let same = (eq_iff (concat p s) k).0 e in
      absurd (false≢true (sym h ∙ ap (starts_at p) (sym same) ∙ starts_at-concat p s))
  | inr e ↦ e
]
