-- ===== src/Risk/Allocation/Limits.antt =====
-- The exposure limits of app/risk/allocation.py along its loop.
use algo_trader.Prelude.{
  String, ◌≡◌, ◌⊎◌, inl, inr, Bool, true, false, not, ◌&&◌, List, [], ◌∷◌, arith, str_eq,
  Bool-cases, is_empty, is_empty-append, is_empty-when, All,
}
use algo_trader.Dict.{Dict, get_or, insert, get_or-insert}
use algo_trader.Float.{Float, ◌≼◌, nought}
use algo_trader.Float.Order.{IsOrdered, le_of_not_lt, le-fmin}
use algo_trader.Risk.Allocation.{
  AllocationCandidate, AllocationLimits, Used, offered, sector_used, bucket_used, blockers,
  accepted, spend, grant, allocate_from,
}

module _ {F : Type 0} ⦃n : Float F⦄ where
  pub record LimitsSound (l : AllocationLimits F) : Type 0 where
    pub gross_nonneg : nought ≼ l.gross
    pub symbol_nonneg : nought ≼ l.symbol
    pub sector_nonneg : nought ≼ l.sector
    pub correlation_nonneg : nought ≼ l.correlation
    pub per_trade_nonneg : nought ≼ l.per_trade_cap

  abbrev pub RequestSound : AllocationCandidate F → Type 0
  RequestSound c = nought ≼ c.requested_amount_usd

  abbrev pub InRange : F → F → Type 0
  InRange x limit = (nought ≼ x) × (x ≼ limit)

  pub record IsWithin (l : AllocationLimits F) (u : Used F) : Type 0 where
    pub gross : InRange u.gross l.gross
    pub by_sector : (k : String) → InRange (get_or u.by_sector k nought) l.sector
    pub by_bucket : (k : String) → InRange (get_or u.by_bucket k nought) l.correlation

  -- Either nothing blocks the candidate and the whole offer is accepted, or nothing is.
  accepted_cases :
      (l : AllocationLimits F) (u : Used F) (c : AllocationCandidate F)
      → ((is_empty (blockers l u c) ≡ true) × (accepted l u c ≡ offered l c))
        ⊎ (accepted l u c ≡ nought)
  unfolding accepted
  accepted_cases l u c = elim (Bool-cases (is_empty (blockers l u c))) [
    | inl e ↦ inl (e, rw e)
    | inr e ↦ inr (rw e)
  ]

  unblocked :
      (l : AllocationLimits F) (u : Used F) (c : AllocationCandidate F)
      → is_empty (blockers l u c) ≡ true
      → (n.lt l.gross (n.add u.gross (offered l c)) ≡ false)
        × (n.lt l.sector (n.add (sector_used u c) (offered l c)) ≡ false)
        × (n.lt l.correlation (n.add (bucket_used u c) (offered l c)) ≡ false)
  unfolding blockers
  unblocked l u c h = let h' = simp (is_empty-append, is_empty-when) at h in booleans _ _ _ h'
    where
      booleans :
          (a b d : Bool)
          → (not a && (not b && not d)) ≡ true
          → (a ≡ false) × (b ≡ false) × (d ≡ false)
      booleans a b d h = ground arith

  module _ (laws : IsOrdered F) where
    open laws use {refl_of_le, add_nonneg, eq_self}

    grow-InRange :
        (used amount limit : F)
        → InRange used limit
        → nought ≼ amount
        → n.lt limit (n.add used amount) ≡ false
        → InRange (n.add used amount) limit
    grow-InRange used amount limit (low, high) p fits =
        let sum_low = add_nonneg _ _ low p in
        (sum_low, le_of_not_lt laws _ _ (refl_of_le _ _ high).1 (refl_of_le _ _ sum_low).1 fits)

    offered_nonneg :
        (l : AllocationLimits F) (c : AllocationCandidate F)
        → LimitsSound l
        → RequestSound c
        → nought ≼ offered l c
    offered_nonneg l c sound r =
        le-fmin laws _ _ _ (le-fmin laws _ _ _ r sound.per_trade_nonneg) sound.symbol_nonneg

    -- Of a dict under one more assignment: the key that is assigned, and the others.
    insert-InRange :
        (k j : String) (v limit : F) (d : Dict F)
        → InRange v limit
        → InRange (get_or d j nought) limit
        → InRange (get_or (insert k v d) j nought) limit
    insert-InRange k j v limit d new old =
        rw get_or-insert (elim (Bool-cases (str_eq j k)) [ inl e ↦ rw e new | inr e ↦ rw e old ])

    spend-IsWithin :
        (l : AllocationLimits F) (u : Used F) (c : AllocationCandidate F) (amount : F)
        → IsWithin l u
        → InRange (n.add u.gross amount) l.gross
        → InRange (n.add (sector_used u c) amount) l.sector
        → InRange (n.add (bucket_used u c) amount) l.correlation
        → IsWithin l (spend u c amount)
    unfolding spend
    spend-IsWithin l u c amount w g s b = elim (Bool-cases (n.eq amount nought)) [
      | inl zero_amount ↦ rw zero_amount w
      | inr some_amount ↦ rw some_amount (record {
        gross = g;
        by_sector = λ k. insert-InRange c.sector k _ _ u.by_sector s (w.by_sector k);
        by_bucket = λ k. insert-InRange c.correlation_bucket k _ _ u.by_bucket b (w.by_bucket k);
      })
    ]

    -- A grant keeps the gross amount, every sector and every correlation bucket within its limit.
    grant-IsWithin :
        (l : AllocationLimits F) (u : Used F) (c : AllocationCandidate F)
        → LimitsSound l
        → RequestSound c
        → IsWithin l u
        → IsWithin l (grant l u c)
    unfolding grant
    grant-IsWithin l u c sound r w = elim (accepted_cases l u c) [
      | inl (free, e) ↦
          let (g, s, b) = unblocked l u c free in
          let p = offered_nonneg l c sound r in
          rw e (
            spend-IsWithin l u c (offered l c) w (grow-InRange _ _ _ w.gross p g)
              (grow-InRange _ _ _ (w.by_sector c.sector) p s)
              (grow-InRange _ _ _ (w.by_bucket c.correlation_bucket) p b))
      | inr e ↦ rw (e, spend, eq_self nought (refl_of_le _ _ sound.gross_nonneg).0) w
    ]

    -- Started within the limits, with requests and limits that are not negative, the loop ends
    -- within the limits: gross, every sector and every correlation bucket.
    pub allocate_from-IsWithin :
        (l : AllocationLimits F) (u : Used F) (cs : List (AllocationCandidate F))
        → LimitsSound l
        → All RequestSound cs
        → IsWithin l u
        → IsWithin l (allocate_from l u cs).1
    unfolding allocate_from
    allocate_from-IsWithin l u [] sound rs w = w
    allocate_from-IsWithin l u (c ∷ cs) sound (r, rs) w =
        allocate_from-IsWithin l (grant l u c) cs sound rs (grant-IsWithin l u c sound r w)
