-- ===== src/Risk/Allocation/Decisions.antt =====
-- The decisions that `allocate_candidates` of app/risk/allocation.py returns.
use algo_trader.Prelude.{
  String, ◌≡◌, refl, inl, inr, true, List, [], ◌∷◌, str_eq, if◌then◌else◌, Bool-cases, is_empty,
  All,
}
use algo_trader.Float.{Float, ◌≼◌, nought}
use algo_trader.Float.Order.{IsOrdered}
use algo_trader.Result.{Result, ok, ok-injective}
use algo_trader.Text.{upper}
use mathlib.Core.Path.{subst}
use algo_trader.Risk.Allocation.{
  AllocationCandidate, Blocker, AllocationDecision, AllocationLimits, EquityError, Used, key_lt,
  insert_ranked, ranked, offered, blockers, accepted, grant, allocate_from, limits, nothing_used,
  allocate_candidates,
}
use algo_trader.Risk.Allocation.Limits.{LimitsSound, RequestSound}
use algo_trader.Risk.Allocation.Totals.{total, amounts, totals-le}

module _ {F : Type 0} ⦃n : Float F⦄ where
  -- Nothing for a candidate that is blocked, the whole offer for another.
  abbrev pub IsSettled : AllocationLimits F → AllocationCandidate F → F → List Blocker → Type 0
  IsSettled l c a [] = a ≡ offered l c
  IsSettled l c a (b ∷ bs) = a ≡ nought

  -- The decisions report the amounts: rounded to cents, and as rounded percentages of the equity.
  abbrev pub Reports :
      AllocationLimits F
      → List (AllocationCandidate F)
      → List F
      → List (AllocationDecision F)
      → Type 0
  Reports l [] [] [] = Unit
  Reports l (c ∷ cs) (a ∷ xs) (d ∷ ds) =
      (d.symbol ≡ upper c.symbol)
      × (d.amount_usd ≡ n.round a 2)
      × (d.weight_pct ≡ n.round (n.mul (n.div a l.equity) (n.lit 100 0)) 4)
      × IsSettled l c a d.blockers
      × Reports l cs xs ds
  Reports l _ _ _ = ⊥

  abbrev returned : List (AllocationDecision F) → Result EquityError (List (AllocationDecision F))
  returned ds = ok ds

  accepted-IsSettled :
      (l : AllocationLimits F) (u : Used F) (c : AllocationCandidate F)
      → IsSettled l c (accepted l u c) (blockers l u c)
  unfolding accepted
  accepted-IsSettled l u c = settle (blockers l u c)
    where
      settle : (bs : List Blocker) → IsSettled l c (if is_empty bs then offered l c else nought) bs
      settle [] = refl
      settle (b ∷ bs) = refl

  allocate_from-Reports :
      (l : AllocationLimits F) (u : Used F) (cs : List (AllocationCandidate F))
      → Reports l cs (amounts l u cs) (allocate_from l u cs).0
  unfolding amounts allocate_from
  allocate_from-Reports l u [] = tt
  allocate_from-Reports l u (c ∷ cs) =
      (refl, refl, refl, accepted-IsSettled l u c, allocate_from-Reports l (grant l u c) cs)

  module _ (P : AllocationCandidate F → Type 0) where
    insert_ranked-All :
        (c : AllocationCandidate F) (ds : List (AllocationCandidate F))
        → P c
        → All P ds
        → All P (insert_ranked c ds)
    unfolding insert_ranked
    insert_ranked-All c [] here rest = (here, tt)
    insert_ranked-All c (d ∷ ds) here (first, rest) = elim (Bool-cases (key_lt c d)) [
      | inl below ↦ rw below (first, insert_ranked-All c ds here rest)
      | inr above ↦ rw above (here, (first, rest))
    ]

    ranked-All : (cs : List (AllocationCandidate F)) → All P cs → All P (ranked cs)
    unfolding ranked
    ranked-All [] all = tt
    ranked-All (c ∷ cs) (here, all) = insert_ranked-All c (ranked cs) here (ranked-All cs all)

  module _ (laws : IsOrdered F) where
    -- With requests and limits that are not negative, the decisions that are returned report, in the
    -- order of the ranking, an amount for each candidate: rounded to cents, nothing for a blocked one,
    -- the whole offer for any other. Before they are rounded, these amounts add up to at most the gross
    -- limit, in any one sector to at most the sector limit, and in any one correlation bucket to at most
    -- the correlation limit.
    pub allocate_candidates-le :
        (cs : List (AllocationCandidate F))
        (equity gross_pct symbol_pct sector_pct correlation_pct per_trade_cap : F)
        (ds : List (AllocationDecision F))
        → let l = limits equity gross_pct symbol_pct sector_pct correlation_pct per_trade_cap in
          LimitsSound l
          → All RequestSound cs
          → allocate_candidates cs equity gross_pct symbol_pct sector_pct correlation_pct
              per_trade_cap
            ≡ ok ds
          → (xs : List F) × Reports l (ranked cs) xs ds
            × (total (λ _. true) nought (ranked cs) xs ≼ l.gross)
            × ((k : String) → total (λ c. str_eq k c.sector) nought (ranked cs) xs ≼ l.sector)
            × ((k : String)
                → total (λ c. str_eq k c.correlation_bucket) nought (ranked cs) xs ≼ l.correlation)
    unfolding allocate_candidates
    allocate_candidates-le cs equity gross_pct symbol_pct sector_pct correlation_pct per_trade_cap
          ds sound rs e =
        let l = limits equity gross_pct symbol_pct sector_pct correlation_pct per_trade_cap in
        elim (Bool-cases (n.le equity nought)) [
          | inl broke ↦ cc (rw broke at e)
          | inr funded ↦
              let same : returned (allocate_from l nothing_used (ranked cs)).0 ≡ ok ds =
                rw funded at e in
              let (gross, sectors, buckets) =
                totals-le laws l (ranked cs) sound (ranked-All RequestSound cs rs) in
              (
                amounts l nothing_used (ranked cs),
                subst (Reports l (ranked cs) (amounts l nothing_used (ranked cs)))
                    (ok-injective _ ds _ refl same)
                    (allocate_from-Reports l nothing_used (ranked cs)),
                gross,
                sectors,
                buckets,
              )
        ]
