-- ===== src/Execution/Queue/Unique.antt =====
-- app/storage/repositories.py and app/storage/db.py: how many rows of the queue have an id, and how many
-- open ones a symbol, through the operations of the repository.
use algo_trader.Prelude.{
  ℕ, ◌+◌, ◌≤◌, String, ◌≡◌, refl, sym, ap, ◌∙◌, inl, inr, Bool, true, false, not, ◌&&◌, some, List,
  [], ◌∷◌, ◌++◌, arith, str_eq, eq_iff, ◌==◌, if◌then◌else◌, Bool-cases, any,
}
use mathlib.Core.Path.{subst}
use mathlib.Core.Option.{some-injective}
use algo_trader.Result.{Result, ok, ok-injective}
use algo_trader.Execution.{QueueRecord, is_open_item}
use algo_trader.Execution.Queue.{holds_symbol, violates, create, get, update, start}

and_right : (a b : Bool) → (a && b) ≡ true → b ≡ true
and_right true b e = e
and_right false b e = cc

and_left : (a b : Bool) → (a && b) ≡ true → a ≡ true
and_left true b e = refl
and_left false b e = cc

one_more : (b : Bool) (m : ℕ) → b ≡ false → m ≤ 1 → m + ((if b then 1 else 0) + 0) ≤ 1
one_more b m e h = ground arith

first_one : (b : Bool) (m : ℕ) → m ≡ 0 → m + ((if b then 1 else 0) + 0) ≤ 1
first_one b m e = ground arith

module _ {ℓ} {A : Type ℓ} where
  unfoldable pub count_if : (A → Bool) → List A → ℕ
  count_if p [] = 0
  count_if p (x ∷ xs) = (if p x then 1 else 0) + count_if p xs

  count_if-append :
      (p : A → Bool) (xs ys : List A) → count_if p (xs ++ ys) ≡ count_if p xs + count_if p ys
  unfolding count_if
  count_if-append p [] ys = omega arith
  count_if-append p (x ∷ xs) ys = omega (arith, count_if-append p xs ys)

  count_if-any : (p : A → Bool) (xs : List A) → any p xs ≡ false → count_if p xs ≡ 0
  unfolding count_if
  count_if-any p [] e = refl
  count_if-any p (x ∷ xs) e = ground (arith, count_if-any p xs)

  count_if-le :
      (p q : A → Bool) (xs : List A)
      → ((x : A) → p x ≡ true → q x ≡ true)
      → count_if p xs ≤ count_if q xs
  unfolding count_if
  count_if-le p q [] imp = omega arith
  count_if-le p q (x ∷ xs) imp = ground (arith, imp x, count_if-le p q xs imp)

module _ {F : Type 0} where
  abbrev added : List (QueueRecord F) → Result String (List (QueueRecord F))
  added rows = ok rows

  abbrev pub id_count : ℕ → List (QueueRecord F) → ℕ
  id_count k rows = count_if (λ (r : QueueRecord F). k == r.id) rows

  -- The open rows of a symbol.
  abbrev pub open_count : String → List (QueueRecord F) → ℕ
  open_count s rows = count_if (λ (r : QueueRecord F). holds_symbol s r) rows

  abbrev other_open : ℕ → String → List (QueueRecord F) → ℕ
  other_open k s rows = count_if (λ (r : QueueRecord F). not (k == r.id) && holds_symbol s r) rows

  abbrev symbol_count : ℕ → String → List (QueueRecord F) → ℕ
  symbol_count k s rows = count_if (λ (r : QueueRecord F). (k == r.id) && str_eq s r.symbol) rows

  pub id_count-update :
      (k : ℕ) (q : QueueRecord F) (rows : List (QueueRecord F))
      → id_count k (update q rows) ≡ id_count k rows
  unfolding count_if update
  id_count-update k q [] = refl
  id_count-update k q (r ∷ rows) = ground (arith, id_count-update k q rows)

  pub id_count-start :
      (k now j : ℕ) (rows : List (QueueRecord F)) → id_count k (start now j rows) ≡ id_count k rows
  unfolding count_if start
  id_count-start k now j [] = refl
  id_count-start k now j (r ∷ rows) = ground (arith, id_count-start k now j rows)

  pub open_count-update :
      (s : String) (q : QueueRecord F) (rows : List (QueueRecord F))
      → is_open_item q.status ≡ false
      → open_count s (update q rows) ≤ open_count s rows
  unfolding count_if update
  open_count-update s q [] closed = omega arith
  open_count-update s q (r ∷ rows) closed = elim (Bool-cases (q.id == r.id)) [
    | inl same ↦ rw (same, closed) (omega (arith, open_count-update s q rows closed))
    | inr other ↦ rw other (omega (arith, open_count-update s q rows closed))
  ]

  open_count-start :
      (s : String) (now k : ℕ) (rows : List (QueueRecord F))
      → open_count s (start now k rows) ≤ symbol_count k s rows + other_open k s rows
  unfolding count_if start
  open_count-start s now k [] = omega arith
  open_count-start s now k (r ∷ rows) = elim (Bool-cases (k == r.id)) [
    | inl same ↦ rw same (omega (arith, open_count-start s now k rows))
    | inr other ↦ rw other (omega (arith, open_count-start s now k rows))
  ]

  symbol_count-le :
      (k : ℕ) (s : String) (rows : List (QueueRecord F)) → symbol_count k s rows ≤ id_count k rows
  symbol_count-le k s rows = count_if-le _ _ rows (λ r e. and_left (k == r.id) _ e)

  other_open-le :
      (k : ℕ) (s : String) (rows : List (QueueRecord F)) → other_open k s rows ≤ open_count s rows
  other_open-le k s rows = count_if-le _ _ rows (λ r e. and_right (not (k == r.id)) _ e)

  symbol_count-zero :
      (k : ℕ) (s : String) (r : QueueRecord F) (rows : List (QueueRecord F))
      → get k rows ≡ some r
      → str_eq s r.symbol ≡ false
      → id_count k rows ≤ 1
      → symbol_count k s rows ≡ 0
  unfolding count_if get
  symbol_count-zero k s r [] found other once = refl
  symbol_count-zero k s r (q ∷ rows) found other once = elim (Bool-cases (k == q.id)) [
    | inr elsewhere ↦
        let fewer : 0 + id_count k rows ≤ 1 = rw elsewhere at once in
        rw elsewhere (
          omega (
            arith,
            symbol_count-zero k s r rows (rw elsewhere at found) other (omega (arith, fewer)),
          ))
    | inl same ↦
        let this = some-injective q r (rw same at found) in
        let apart : str_eq s q.symbol ≡ false =
          ap (λ (x : QueueRecord F). str_eq s x.symbol) this ∙ other in
        let single : 1 + id_count k rows ≤ 1 = rw same at once in
        rw (same, apart) (omega (arith, symbol_count-le k s rows, single))
  ]

  pub open_count-claim :
      (s : String) (now k : ℕ) (r : QueueRecord F) (rows : List (QueueRecord F))
      → get k rows ≡ some r
      → violates k r.symbol rows ≡ false
      → id_count k rows ≤ 1
      → open_count s rows ≤ 1
      → open_count s (start now k rows) ≤ 1
  unfolding violates
  open_count-claim s now k r rows found free once one = elim (Bool-cases (str_eq s r.symbol)) [
    | inl same ↦
        let named : s ≡ r.symbol = (eq_iff s r.symbol).0 same in
        let alone : other_open k s rows ≡ 0 =
          count_if-any _ rows (ap (λ t. violates k t rows) named ∙ free) in
        omega (arith, open_count-start s now k rows, symbol_count-le k s rows, alone, once)
    | inr apart ↦ omega (
      arith,
      open_count-start s now k rows,
      symbol_count-zero k s r rows found apart once,
      other_open-le k s rows,
      one,
    )
  ]

  -- A row that the index and the primary key accept.
  created_row :
      (r : QueueRecord F) (rows v : List (QueueRecord F))
      → create r rows ≡ ok v
      → (any (λ q. r.id == q.id) rows ≡ false)
        × ((is_open_item r.status && violates r.id r.symbol rows) ≡ false)
        × (v ≡ rows ++ (r ∷ []))
  unfolding create
  created_row r rows v e = elim (Bool-cases (any (λ q. r.id == q.id) rows)) [
    | inl used ↦ cc (rw used at e)
    | inr fresh ↦ elim (Bool-cases (is_open_item r.status && violates r.id r.symbol rows)) [
      | inl taken ↦ cc (rw (fresh, taken) at e)
      | inr free ↦
          let done : added (rows ++ (r ∷ [])) ≡ ok v = rw (fresh, free) at e in
          (fresh, free, sym (ok-injective (rows ++ (r ∷ [])) v (ok v) (sym done) refl))
    ]
  ]

  open_count-le :
      (k : ℕ) (s : String) (rows : List (QueueRecord F))
      → open_count s rows ≤ id_count k rows + other_open k s rows
  unfolding count_if
  open_count-le k s [] = omega arith
  open_count-le k s (r ∷ rows) = elim (Bool-cases (k == r.id)) [
    | inl same ↦ rw same (ground (arith, open_count-le k s rows))
    | inr other ↦ rw other (omega (arith, open_count-le k s rows))
  ]

  pub open_count-create :
      (s : String) (r : QueueRecord F) (rows v : List (QueueRecord F))
      → create r rows ≡ ok v
      → open_count s rows ≤ 1
      → open_count s v ≤ 1
  unfolding violates count_if
  open_count-create s r rows v e one =
      let (fresh, free, same) = created_row r rows v e in
      rw same (
        subst (λ t. t ≤ 1) (sym (count_if-append _ rows (r ∷ [])))
          (elim (Bool-cases (holds_symbol s r)) [
            | inr apart ↦ one_more (holds_symbol s r) (open_count s rows) apart one
            | inl holds ↦
                let named : s ≡ r.symbol =
                  (eq_iff s r.symbol).0 (and_right (is_open_item r.status) _ holds) in
                let alone : violates r.id s rows ≡ false =
                  ap (λ t. violates r.id t rows) named
                  ∙ (rw (and_left (is_open_item r.status) _ holds) at free) in
                let none_other = count_if-any _ rows alone in
                let none_same = count_if-any _ rows fresh in
                first_one (holds_symbol s r) (open_count s rows)
                  (omega (arith, open_count-le r.id s rows, none_other, none_same))
          ]))

  pub id_count-create :
      (k : ℕ) (r : QueueRecord F) (rows v : List (QueueRecord F))
      → create r rows ≡ ok v
      → id_count k rows ≤ 1
      → id_count k v ≤ 1
  unfolding count_if
  id_count-create k r rows v e once =
      let (fresh, free, same) = created_row r rows v e in
      rw same (
        subst (λ t. t ≤ 1) (sym (count_if-append _ rows (r ∷ [])))
          (elim (Bool-cases (k == r.id)) [
            | inr other ↦ one_more (k == r.id) (id_count k rows) other once
            | inl this ↦
                let none_same : id_count r.id rows ≡ 0 = count_if-any _ rows fresh in
                let named : k ≡ r.id = ground (arith, this) in
                first_one (k == r.id) (id_count k rows)
                  (ap (λ t. id_count t rows) named ∙ none_same)
          ]))
