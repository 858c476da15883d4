-- ===== src/Risk/Allocation/Totals.antt =====
-- What the loop of app/risk/allocation.py accepts, added up in the order of the loop.
use algo_trader.Prelude.{
  String, ◌≡◌, refl, sym, ap, ◌∙◌, inl, inr, Bool, true, not, ◌&&◌, List, [], ◌∷◌, str_eq, eq_iff,
  if◌then◌else◌, Bool-cases, All,
}
use algo_trader.Dict.{get_or, get_or-insert}
use algo_trader.Float.{Float, ◌≼◌, nought}
use algo_trader.Float.Order.{IsOrdered}
use algo_trader.Risk.Allocation.{
  AllocationCandidate, AllocationLimits, Used, accepted, spend, grant, allocate_from, nothing_used,
}
use algo_trader.Risk.Allocation.Limits.{LimitsSound, RequestSound, IsWithin, allocate_from-IsWithin}

module _ {F : Type 0} ⦃n : Float F⦄ where
  grant-gross :
      (l : AllocationLimits F) (u : Used F) (c : AllocationCandidate F)
      → (grant l u c).gross
        ≡ (if not (n.eq (accepted l u c) nought) then n.add u.gross (accepted l u c) else u.gross)
  unfolding grant
  grant-gross l u c = elim (Bool-cases (n.eq (accepted l u c) nought)) [
    | inl e ↦ rw (e, spend)
    | inr e ↦ rw (e, spend)
  ]

  grant-sector :
      (l : AllocationLimits F) (u : Used F) (c : AllocationCandidate F) (k : String)
      → get_or (grant l u c).by_sector k nought ≡ (
          if str_eq k c.sector && not (n.eq (accepted l u c) nought)
          then n.add (get_or u.by_sector k nought) (accepted l u c)
          else get_or u.by_sector k nought)
  unfolding grant
  grant-sector l u c k = elim (Bool-cases (n.eq (accepted l u c) nought)) [
    | inl e ↦ elim (Bool-cases (str_eq k c.sector)) [
      | inl own ↦ rw (e, spend, own)
      | inr other ↦ rw (e, spend, other)
    ]
    | inr e ↦ elim (Bool-cases (str_eq k c.sector)) [
      | inl own ↦
          let same = (eq_iff k c.sector).0 own in rw (e, spend, own, get_or-insert, own) (rw same)
      | inr other ↦ rw (e, spend, other, get_or-insert, other)
    ]
  ]

  grant-bucket :
      (l : AllocationLimits F) (u : Used F) (c : AllocationCandidate F) (k : String)
      → get_or (grant l u c).by_bucket k nought ≡ (
          if str_eq k c.correlation_bucket && not (n.eq (accepted l u c) nought)
          then n.add (get_or u.by_bucket k nought) (accepted l u c)
          else get_or u.by_bucket k nought)
  unfolding grant
  grant-bucket l u c k = elim (Bool-cases (n.eq (accepted l u c) nought)) [
    | inl e ↦ elim (Bool-cases (str_eq k c.correlation_bucket)) [
      | inl own ↦ rw (e, spend, own)
      | inr other ↦ rw (e, spend, other)
    ]
    | inr e ↦ elim (Bool-cases (str_eq k c.correlation_bucket)) [
      | inl own ↦
          let same = (eq_iff k c.correlation_bucket).0 own in
          rw (e, spend, own, get_or-insert, own) (rw same)
      | inr other ↦ rw (e, spend, other, get_or-insert, other)
    ]
  ]

  -- The amounts of the candidates of a test added up in order, those of nothing left out.
  abbrev pub total : (AllocationCandidate F → Bool) → F → List (AllocationCandidate F) → List F → F
  total p acc [] xs = acc
  total p acc (c ∷ cs) [] = acc
  total p acc (c ∷ cs) (a ∷ xs) =
      total p (if p c && not (n.eq a nought) then n.add acc a else acc) cs xs

  -- What the loop accepts, before it is rounded.
  unfoldable pub amounts : AllocationLimits F → Used F → List (AllocationCandidate F) → List F
  amounts l u [] = []
  amounts l u (c ∷ cs) = accepted l u c ∷ amounts l (grant l u c) cs

  -- A running total that follows the loop ends at what is added up.
  total-amounts :
      (p : AllocationCandidate F → Bool) (tally : Used F → F) (l : AllocationLimits F)
      → ((u : Used F) (c : AllocationCandidate F)
          → tally (grant l u c) ≡ (
              if p c && not (n.eq (accepted l u c) nought)
              then n.add (tally u) (accepted l u c)
              else tally u))
      → (u : Used F) (cs : List (AllocationCandidate F))
      → total p (tally u) cs (amounts l u cs) ≡ tally (allocate_from l u cs).1
  unfolding allocate_from amounts
  total-amounts p tally l step u [] = refl
  total-amounts p tally l step u (c ∷ cs) =
      let rest = total-amounts p tally l step (grant l u c) cs in
      ap (λ acc. total p acc cs (amounts l (grant l u c) cs)) (sym (step u c)) ∙ rest

  module _ (laws : IsOrdered F) where
    open laws use {refl_of_le}

    nothing_used-IsWithin : (l : AllocationLimits F) → LimitsSound l → IsWithin l nothing_used
    nothing_used-IsWithin l sound =
        let zero_number = (refl_of_le _ _ sound.gross_nonneg).0 in
        record {
          gross = (zero_number, sound.gross_nonneg);
          by_sector = λ k. (zero_number, sound.sector_nonneg);
          by_bucket = λ k. (zero_number, sound.correlation_nonneg);
        }

    -- The amounts of the loop over candidates in any order.
    pub totals-le :
        (l : AllocationLimits F) (cs : List (AllocationCandidate F))
        → LimitsSound l
        → All RequestSound cs
        → let xs = amounts l nothing_used cs in
          (total (λ _. true) nought cs xs ≼ l.gross)
          × ((k : String) → total (λ c. str_eq k c.sector) nought cs xs ≼ l.sector)
          × ((k : String) → total (λ c. str_eq k c.correlation_bucket) nought cs xs ≼ l.correlation)
    totals-le l cs sound rs =
        let w =
          allocate_from-IsWithin laws l nothing_used cs sound rs (nothing_used-IsWithin l sound) in
        (
          rw (total-amounts (λ _. true) (λ u. u.gross) l (λ u c. grant-gross l u c) nothing_used cs)
              w.gross.1,
          λ k.
              rw
                (total-amounts (λ c. str_eq k c.sector) (λ u. get_or u.by_sector k nought) l
                  (λ u c. grant-sector l u c k) nothing_used cs)
                (w.by_sector k).1,
          λ k.
              rw
                (total-amounts (λ c. str_eq k c.correlation_bucket)
                  (λ u. get_or u.by_bucket k nought) l (λ u c. grant-bucket l u c k) nothing_used
                  cs)
                (w.by_bucket k).1,
        )
