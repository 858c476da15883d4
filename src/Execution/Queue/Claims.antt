-- ===== src/Execution/Queue/Claims.antt =====
-- app/storage/repositories.py, `claim_for_processing`: which row it claims, and what the claim leaves.
use algo_trader.Prelude.{
  ℕ, String, ◌≡◌, refl, sym, ap, ◌∙◌, inl, ◌⊎◌, inr, Bool, true, false, Option, some, List, [], ◌∷◌,
  arith, ◌==◌, Bool-cases, or_else, Option-cases,
}
use mathlib.Core.Option.{some-injective}
use algo_trader.Result.{Result, ok, ok-injective}
use algo_trader.Execution.{QueueRecord}
use algo_trader.Execution.Queue.{
  get, is_claimable, violates, started, start, claim_row, claim_for_processing,
}

module _ {F : Type 0} where
  pub get_id :
      (k : ℕ) (r : QueueRecord F) (rows : List (QueueRecord F)) → get k rows ≡ some r → r.id ≡ k
  unfolding get
  get_id k r [] e = cc
  get_id k r (q ∷ rows) e = elim (Bool-cases (k == q.id)) [
    | inl same ↦
        let found : some q ≡ some r = rw same at e in
        rw (sym (some-injective q r found)) (ground (arith, same))
    | inr other ↦ get_id k r rows (rw other at e)
  ]

  pub get-own_id :
      (k : ℕ) (r : QueueRecord F) (rows : List (QueueRecord F))
      → get k rows ≡ some r
      → get r.id rows ≡ some r
  get-own_id k r rows found = ap (λ i. get i rows) (get_id k r rows found) ∙ found

  again : ℕ → QueueRecord F → Option (QueueRecord F)
  again now r = some (started now r)

  -- The claimed row, read again.
  pub get-start :
      (now k : ℕ) (r : QueueRecord F) (rows : List (QueueRecord F))
      → get k rows ≡ some r
      → get k (start now k rows) ≡ some (started now r)
  unfolding get start again
  get-start now k r [] e = cc
  get-start now k r (q ∷ rows) e = elim (Bool-cases (k == q.id)) [
    | inl same ↦
        let found : some q ≡ some r = rw same at e in
        rw (same, same) (ap (again now) (some-injective q r found))
    | inr other ↦ rw (other, other) (get-start now k r rows (rw other at e))
  ]

  abbrev claimed : List (QueueRecord F) → Result String (Bool × List (QueueRecord F))
  claimed v = ok (true, v)

  module _ (stale now k : ℕ) (r : QueueRecord F) (rows : List (QueueRecord F))
      (found : get k rows ≡ some r) where
    claim_row-true :
        (v : List (QueueRecord F))
        → claim_row stale now r rows ≡ ok (true, v)
        → (is_claimable stale r.status r.updated_at ≡ true)
          × (violates r.id r.symbol rows ≡ false)
          × (v ≡ start now r.id rows)
    claim_row-true v e = elim (Bool-cases (is_claimable stale r.status r.updated_at)) [
      | inr settled ↦ cc (rw settled at e)
      | inl open_again ↦ elim (Bool-cases (violates r.id r.symbol rows)) [
        | inl taken ↦ cc (rw (open_again, taken) at e)
        | inr free ↦
            let done : claimed (start now r.id rows) ≡ ok (true, v) = rw (open_again, free) at e in
            (open_again, free, ap (λ m. m.1) (ok-injective _ _ _ done refl))
      ]
    ]

    pub claim_for_processing-some :
        claim_for_processing stale now k rows ≡ claim_row stale now r rows
    unfolding claim_for_processing
    claim_for_processing-some = rw (found, claim_for_processing)

    -- A claim that succeeds: the row was claimable, no other open row has its symbol, and it is started.
    pub claimed_row :
        (v : List (QueueRecord F))
        → claim_for_processing stale now k rows ≡ ok (true, v)
        → (is_claimable stale r.status r.updated_at ≡ true)
          × (violates r.id r.symbol rows ≡ false)
          × (v ≡ start now r.id rows)
    claimed_row v e = claim_row-true v (sym claim_for_processing-some ∙ e)

  abbrev kept_rows : Bool → List (QueueRecord F) → Result String (Bool × List (QueueRecord F))
  kept_rows b v = ok (b, v)

  claim_row-result :
      (stale now : ℕ) (r : QueueRecord F) (rows : List (QueueRecord F)) (b : Bool)
      (v : List (QueueRecord F))
      → claim_row stale now r rows ≡ ok (b, v)
      → (rows ≡ v) ⊎ ((violates r.id r.symbol rows ≡ false) × (start now r.id rows ≡ v))
  claim_row-result stale now r rows b v e =
      elim (Bool-cases (is_claimable stale r.status r.updated_at)) [
        | inr settled ↦
            let done : kept_rows false rows ≡ ok (b, v) = rw settled at e in
            inl (sym (ap (λ m. m.1) (ok-injective _ _ _ done refl)))
        | inl open_again ↦ elim (Bool-cases (violates r.id r.symbol rows)) [
          | inl taken ↦ cc (rw (open_again, taken) at e)
          | inr free ↦
              let done : kept_rows true (start now r.id rows) ≡ ok (b, v) =
                rw (open_again, free) at e in
              inr (free, sym (ap (λ m. m.1) (ok-injective _ _ _ done refl)))
        ]
      ]

  -- A claim that does not raise leaves the rows, or starts one whose symbol no other open row has.
  pub claim-result :
      (stale now k : ℕ) (rows : List (QueueRecord F)) (b : Bool) (v : List (QueueRecord F))
      → claim_for_processing stale now k rows ≡ ok (b, v)
      → (rows ≡ v)
        ⊎ ((r : QueueRecord F) × (get r.id rows ≡ some r)
            × (violates r.id r.symbol rows ≡ false)
            × (start now r.id rows ≡ v))
  unfolding claim_for_processing
  claim-result stale now k rows b v e = elim (Option-cases (get k rows)) [
    | inl missing ↦
        let done : kept_rows false rows ≡ ok (b, v) =
          sym (rw (missing, claim_for_processing) refl) ∙ e in
        inl (sym (ap (λ m. m.1) (ok-injective _ _ _ done refl)))
    | inr (r, found) ↦
        elim (claim_row-result stale now r rows b v
          (sym (claim_for_processing-some stale now k r rows found) ∙ e)) [
            | inl same ↦ inl same
            | inr (free, begun) ↦ inr (r, get-own_id k r rows found, free, begun)
          ]
  ]

  -- The row that was claimed names the same proposal.
  pub claim-proposal_id :
      (stale now : ℕ) (r : QueueRecord F) (rows : List (QueueRecord F))
      → get r.id rows ≡ some r
      → (v : List (QueueRecord F)) → claim_for_processing stale now r.id rows ≡ ok (true, v)
      → (or_else (get r.id v) r).proposal_id ≡ r.proposal_id
  claim-proposal_id stale now r rows found v e =
      let (open_again, free, same) = claimed_row stale now r.id r rows found v e in
      rw (same, get-start now r.id r rows found) refl
