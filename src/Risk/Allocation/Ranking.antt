-- ===== src/Risk/Allocation/Ranking.antt =====
-- The order in which app/risk/allocation.py takes its candidates.
use mathlib.Core.List.{Perm}
use mathlib.Core.List.Perm
use algo_trader.Prelude.{
  ◌≡◌, refl, sym, ap, ◌∙◌, inl, inr, Bool, true, false, ◌&&◌, List, [], ◌∷◌, arith, if◌then◌else◌,
  Bool-cases,
}
use mathlib.Core.Bool.{false≢true}
use algo_trader.Float.{Float}
use algo_trader.Float.Order.{IsOrdered, lt_asymm}
use algo_trader.Risk.Allocation.{AllocationCandidate, key_lt, insert_ranked, ranked}

module _ {F : Type 0} ⦃n : Float F⦄ where
  -- `1.0 / item.annualized_volatility_pct`
  abbrev pub calmness : AllocationCandidate F → F
  calmness c = n.div (n.lit 1 0) c.annualized_volatility_pct

  -- The score of c is not below that of d, and if they are equal, neither is its calmness.
  abbrev pub IsNotBelow : AllocationCandidate F → AllocationCandidate F → Type 0
  IsNotBelow c d =
      (n.lt c.score d.score ≡ false)
      × ((n.eq c.score d.score && n.lt (calmness c) (calmness d)) ≡ false)

  -- No candidate is below the one after it.
  abbrev pub IsDescending : List (AllocationCandidate F) → Type 0
  IsDescending [] = Unit
  IsDescending (c ∷ []) = Unit
  IsDescending (c ∷ d ∷ ds) = IsNotBelow c d × IsDescending (d ∷ ds)

  -- The candidates of a test, in their order.
  abbrev pub chosen :
      (AllocationCandidate F → Bool) → List (AllocationCandidate F) → List (AllocationCandidate F)
  chosen p [] = []
  chosen p (c ∷ cs) = let rest = chosen p cs in if p c then c ∷ rest else rest

  IsNotBelow-of_key : (c d : AllocationCandidate F) → key_lt c d ≡ false → IsNotBelow c d
  IsNotBelow-of_key c d e = (ground (arith, e), ground (arith, e))

  key_of_not_below : (c d : AllocationCandidate F) → IsNotBelow c d → key_lt c d ≡ false
  key_of_not_below c d (score, calm) = ground (arith, score, calm)

  insert_ranked-perm :
      (c : AllocationCandidate F) (ds : List (AllocationCandidate F))
      → Perm (insert_ranked c ds) (c ∷ ds)
  unfolding insert_ranked
  insert_ranked-perm c [] = Perm.refl _
  insert_ranked-perm c (d ∷ ds) = elim (Bool-cases (key_lt c d)) [
    | inl below ↦ rw below (Perm.trans (Perm.cons d (insert_ranked-perm c ds)) (Perm.swap c d ds))
    | inr above ↦ rw above (Perm.refl _)
  ]

  ranked-perm : (cs : List (AllocationCandidate F)) → Perm (ranked cs) cs
  unfolding ranked
  ranked-perm [] = Perm.refl []
  ranked-perm (c ∷ cs) =
      Perm.trans (insert_ranked-perm c (ranked cs)) (Perm.cons c (ranked-perm cs))

  module _ (laws : IsOrdered F) where
    open laws use {lt-not-eq}

    key_lt_asymm : (a b : AllocationCandidate F) → key_lt a b ≡ true → key_lt b a ≡ false
    key_lt_asymm a b e =
        let va = n.div (n.lit 1 0) a.annualized_volatility_pct in
        let vb = n.div (n.lit 1 0) b.annualized_volatility_pct in
        ground (
          arith,
          e,
          lt_asymm laws a.score b.score,
          lt_asymm laws va vb,
          lt-not-eq a.score b.score,
          lt-not-eq b.score a.score,
        )

    -- A candidate that the new one does not exceed stays the head of the rest.
    insert-after :
        (d c : AllocationCandidate F) (ds : List (AllocationCandidate F))
        → IsNotBelow d c
        → IsDescending (d ∷ ds)
        → IsDescending (insert_ranked c ds)
        → IsDescending (d ∷ insert_ranked c ds)
    unfolding insert_ranked
    insert-after d c [] above sorted rest = (above, tt)
    insert-after d c (e ∷ es) above sorted rest = elim (Bool-cases (key_lt c e)) [
      | inl below ↦ rw below (sorted.0, rw below at rest)
      | inr stays ↦ rw stays (above, rw stays at rest)
    ]

    tail-IsDescending :
        (c : AllocationCandidate F) (cs : List (AllocationCandidate F))
        → IsDescending (c ∷ cs)
        → IsDescending cs
    tail-IsDescending c [] sorted = tt
    tail-IsDescending c (d ∷ ds) sorted = sorted.1

    insert_ranked-IsDescending :
        (c : AllocationCandidate F) (ds : List (AllocationCandidate F))
        → IsDescending ds
        → IsDescending (insert_ranked c ds)
    unfolding insert_ranked
    insert_ranked-IsDescending c [] sorted = tt
    insert_ranked-IsDescending c (d ∷ ds) sorted = elim (Bool-cases (key_lt c d)) [
      | inl below ↦ rw below (
          insert-after d c ds (IsNotBelow-of_key d c (key_lt_asymm c d below)) sorted
            (insert_ranked-IsDescending c ds (tail-IsDescending d ds sorted)))
      | inr above ↦ rw above (IsNotBelow-of_key c d above, sorted)
    ]

    ranked-IsDescending : (cs : List (AllocationCandidate F)) → IsDescending (ranked cs)
    unfolding ranked
    ranked-IsDescending [] = tt
    ranked-IsDescending (c ∷ cs) = insert_ranked-IsDescending c (ranked cs) (ranked-IsDescending cs)

  module _ (p : AllocationCandidate F → Bool)
      (alike : (a b : AllocationCandidate F) → p a ≡ true → p b ≡ true → IsNotBelow a b) where
    chosen-insert_ranked :
        (c : AllocationCandidate F) (ds : List (AllocationCandidate F))
        → chosen p (insert_ranked c ds) ≡ chosen p (c ∷ ds)
    unfolding insert_ranked
    chosen-insert_ranked c [] = refl
    chosen-insert_ranked c (d ∷ ds) =
        let rest = chosen-insert_ranked c ds in
        elim (Bool-cases (key_lt c d)) [
          | inr above ↦ rw above refl
          | inl below ↦ rw below (elim (Bool-cases (p c)) [
            | inr out ↦ elim (Bool-cases (p d)) [
              | inl other ↦ rw (out, other) (ap (λ xs. d ∷ xs) (rw out at rest))
              | inr apart ↦ rw (out, apart) (rw out at rest)
            ]
            | inl own ↦ elim (Bool-cases (p d)) [
              | inl other ↦
                  absurd (false≢true (sym (key_of_not_below c d (alike c d own other)) ∙ below))
              | inr apart ↦ rw (own, apart) (rw own at rest)
            ]
          ])
        ]

    chosen-ranked : (cs : List (AllocationCandidate F)) → chosen p (ranked cs) ≡ chosen p cs
    unfolding ranked
    chosen-ranked [] = refl
    chosen-ranked (c ∷ cs) =
        let rest = chosen-ranked cs in
        chosen-insert_ranked c (ranked cs) ∙ elim (Bool-cases (p c)) [
          | inl own ↦ rw own (ap (λ xs. c ∷ xs) rest)
          | inr other ↦ rw other rest
        ]

  -- The loop takes every candidate exactly once, the best score first and among equal scores the
  -- lowest volatility, and leaves candidates of one key in the order in which they were given.
  pub ranked-ranks :
      (laws : IsOrdered F) (cs : List (AllocationCandidate F)) (p : AllocationCandidate F → Bool)
      → ((a b : AllocationCandidate F) → p a ≡ true → p b ≡ true → IsNotBelow a b)
      → Perm (ranked cs) cs × IsDescending (ranked cs) × (chosen p (ranked cs) ≡ chosen p cs)
  ranked-ranks laws cs p alike =
      (ranked-perm cs, ranked-IsDescending laws cs, chosen-ranked p alike cs)
