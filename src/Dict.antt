-- ===== src/Dict.antt =====
-- A Python dict keyed by texts, in insertion order.
use algo_trader.Prelude.{
  ◌≡◌, refl, Option, none, some, List, [], ◌∷◌, String, str_eq, eq_iff, if◌then◌else◌, arith,
}

abbrev pub Dict {ℓ} : Type ℓ → Type ℓ
Dict V = List (String × V)

module _ {ℓ} {V : Type ℓ} where
  -- `d.get(k)`
  abbrev pub lookup : String → Dict V → Option V
  lookup k [] = none
  lookup k ((j, v) ∷ d) = if str_eq k j then some v else lookup k d

  -- `d.get(k, default)`
  abbrev pub get_or : Dict V → String → V → V
  get_or [] k v = v
  get_or ((j, w) ∷ d) k v = if str_eq k j then w else get_or d k v

  -- `d[k] = v`
  abbrev pub insert : String → V → Dict V → Dict V
  insert k v [] = (k, v) ∷ []
  insert k v ((j, w) ∷ d) = if str_eq k j then (k, v) ∷ d else (j, w) ∷ insert k v d

  pub lookup-insert :
      (k j : String) (v : V) (d : Dict V)
      → lookup j (insert k v d) ≡ (if str_eq j k then some v else lookup j d)
  lookup-insert k j v [] = refl
  lookup-insert k j v ((i, w) ∷ d) =
      ground (arith, eq_iff k j, eq_iff j k, eq_iff k i, eq_iff j i, lookup-insert k j v d)

  pub get_or-insert :
      (k j : String) (v x : V) (d : Dict V)
      → get_or (insert k v d) j x ≡ (if str_eq j k then v else get_or d j x)
  get_or-insert k j v x [] = refl
  get_or-insert k j v x ((i, w) ∷ d) =
      ground (arith, eq_iff k j, eq_iff j k, eq_iff k i, eq_iff j i, get_or-insert k j v x d)
