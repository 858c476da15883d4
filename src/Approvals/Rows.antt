-- ===== src/Approvals/Rows.antt =====
-- What every row of the table approvals satisfies, through the operations of the repository, and the
-- row under an id through an update of another.
use algo_trader.Prelude.{
  ℕ, ◌≡◌, refl, sym, ◌≢◌, ◌⊎◌, inl, inr, Bool, true, false, Option, none, some, List, [], ◌∷◌, ◌++◌,
  arith, ltb, ◌==◌, if◌then◌else◌, Bool-cases, is_some, All,
}
use mathlib.Core.Option.{some-injective}
use algo_trader.Models.{ApprovalStatus, TradeProposal}
use algo_trader.Approvals.Store.{
  same_status, create, get, update, list, insert_newest, newest_first, having,
}

module _ {F : Type 0} where
  pub get_id :
      (k : ℕ) (p : TradeProposal F) (rows : List (TradeProposal F)) → get k rows ≡ some p → p.id ≡ k
  unfolding get
  get_id k p [] e = cc
  get_id k p (q ∷ rows) e = elim (Bool-cases (k == q.id)) [
    | inl same ↦
        let found : some q ≡ some p = rw same at e in
        rw (sym (some-injective q p found)) (ground (arith, same))
    | inr other ↦ get_id k p rows (rw other at e)
  ]

  pub get-update_other :
      (k : ℕ) (q : TradeProposal F) (rows : List (TradeProposal F))
      → k ≢ q.id
      → get k (update q rows) ≡ get k rows
  unfolding get update
  get-update_other k q [] ne = refl
  get-update_other k q (p ∷ rows) ne = let rest = get-update_other k q rows ne in ground arith

  -- A row that is inserted is the last; an id that is there is refused.
  pub create_cases :
      (q : TradeProposal F) (rows : List (TradeProposal F))
      → (create q rows ≡ none) ⊎ (create q rows ≡ some (rows ++ (q ∷ [])))
  unfolding create
  create_cases q rows = elim (Bool-cases (is_some (get q.id rows))) [
    | inl taken ↦ inl (rw taken refl)
    | inr free ↦ inr (rw free refl)
  ]

  pub get-append-some :
      (k : ℕ) (q p : TradeProposal F) (rows : List (TradeProposal F))
      → get k rows ≡ some p
      → get k (rows ++ (q ∷ [])) ≡ some p
  unfolding get
  get-append-some k q p [] e = cc
  get-append-some k q p (r ∷ rows) e = elim (Bool-cases (k == r.id)) [
    | inl same ↦ rw same (rw same at e)
    | inr other ↦ rw other (get-append-some k q p rows (rw other at e))
  ]

  module _ (P : TradeProposal F → Type 0) where
    choose : (b : Bool) (p q : TradeProposal F) → P p → P q → P (if b then p else q)
    choose true p q here there = here
    choose false p q here there = there

    pub All-append_one :
        (p : TradeProposal F) (rows : List (TradeProposal F))
        → P p
        → All P rows
        → All P (rows ++ (p ∷ []))
    All-append_one p [] here all = (here, all)
    All-append_one p (q ∷ rows) here (first, all) = (first, All-append_one p rows here all)

    pub All-get :
        (k : ℕ) (p : TradeProposal F) (rows : List (TradeProposal F))
        → get k rows ≡ some p
        → All P rows
        → P p
    unfolding get
    All-get k p [] e all = cc
    All-get k p (q ∷ rows) e (first, all) = elim (Bool-cases (k == q.id)) [
      | inl same ↦
          let found : some q ≡ some p = rw same at e in rw (sym (some-injective q p found)) first
      | inr other ↦ All-get k p rows (rw other at e) all
    ]

    pub All-update :
        (q : TradeProposal F) (rows : List (TradeProposal F))
        → ((t : ℕ) → P (record q { created_at = t }))
        → All P rows
        → All P (update q rows)
    unfolding update
    All-update q [] here all = all
    All-update q (p ∷ rows) here (first, all) = (
      choose (q.id == p.id) (record q { created_at = p.created_at }) p (here p.created_at) first,
      All-update q rows here all,
    )

    All-having :
        (status : Option ApprovalStatus) (rows : List (TradeProposal F))
        → All P rows
        → All P (having status rows)
    unfolding having
    All-having none rows all = all
    All-having (some s) [] all = all
    All-having (some s) (p ∷ rows) (first, all) = elim (Bool-cases (same_status p.status s)) [
      | inl same ↦ rw same (first, All-having (some s) rows all)
      | inr other ↦ rw other (All-having (some s) rows all)
    ]

    All-insert_newest :
        (p : TradeProposal F) (rows : List (TradeProposal F))
        → P p
        → All P rows
        → All P (insert_newest p rows)
    unfolding insert_newest
    All-insert_newest p [] here all = (here, all)
    All-insert_newest p (q ∷ rows) here (first, all) =
        elim (Bool-cases (ltb p.created_at q.created_at)) [
          | inl newer ↦ rw newer (first, All-insert_newest p rows here all)
          | inr older ↦ rw older (here, (first, all))
        ]

    All-newest_first : (rows : List (TradeProposal F)) → All P rows → All P (newest_first rows)
    unfolding newest_first
    All-newest_first [] all = all
    All-newest_first (p ∷ rows) (first, all) =
        All-insert_newest p (newest_first rows) first (All-newest_first rows all)

    pub All-list :
        (status : Option ApprovalStatus) (rows : List (TradeProposal F))
        → All P rows
        → All P (list status rows)
    unfolding list
    All-list status rows all = All-newest_first (having status rows) (All-having status rows all)
