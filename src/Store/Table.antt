-- ===== src/Store/Table.antt =====
-- The SQL that the statements of internal/store use, on a table as the list of its rows.
use mathlib.Core.Option
use teleparse.Base.{
  ℕ, ◌+◌, Bool, true, Option, none, some, List, [], ◌∷◌, ◌≡◌, refl, All, arith, if◌then◌else◌,
  Bool-cases, inl, inr,
}

module _ {ℓ} {R : Type ℓ} where
  -- SELECT ... WHERE
  unfoldable pub select_where : (R → Bool) → List R → List R
  select_where p [] = []
  select_where p (r ∷ rs) = let rest = select_where p rs in if p r then r ∷ rest else rest

  -- The row that a query of one row scans, or `sql.ErrNoRows`.
  unfoldable pub query_row : (R → Bool) → List R → Option R
  query_row p [] = none
  query_row p (r ∷ rs) = let rest = query_row p rs in if p r then some r else rest

  -- UPDATE ... SET ... WHERE
  unfoldable pub update_where : (R → Bool) → (R → R) → List R → List R
  update_where p set [] = []
  update_where p set (r ∷ rs) = (if p r then set r else r) ∷ update_where p set rs

  -- SELECT COUNT(*) ... WHERE, and the rows that a statement affects.
  unfoldable pub count_where : (R → Bool) → List R → ℕ
  count_where p [] = 0
  count_where p (r ∷ rs) = (if p r then 1 else 0) + count_where p rs

  -- ORDER BY, where `before r s` puts `r` in front of `s`.
  unfoldable pub place : (R → R → Bool) → R → List R → List R
  place before r [] = r ∷ []
  place before r (s ∷ rs) =
      let rest = place before r rs in if before s r then s ∷ rest else r ∷ s ∷ rs

  unfoldable pub order_by : (R → R → Bool) → List R → List R
  unfolding place
  order_by before [] = []
  order_by before (r ∷ rs) = place before r (order_by before rs)

  -- INSERT, behind the rows that are there.
  unfoldable pub insert_row : R → List R → List R
  insert_row r [] = r ∷ []
  insert_row r (s ∷ rs) = s ∷ insert_row r rs

  -- What every row of an update, and of a list in order, has.
  pub All-update_where {κ} :
      (P : R → Type κ) (p : R → Bool) (set : R → R) (rs : List R)
      → ((r : R) → P r → P (if p r then set r else r))
      → All P rs
      → All P (update_where p set rs)
  unfolding update_where
  All-update_where P p set [] keep h = tt
  All-update_where P p set (r ∷ rs) keep h = (keep r h.0, All-update_where P p set rs keep h.1)

  pub All-place {κ} :
      (P : R → Type κ) (before : R → R → Bool) (r : R) (rs : List R)
      → P r
      → All P rs
      → All P (place before r rs)
  unfolding place
  All-place P before r [] here h = (here, tt)
  All-place P before r (s ∷ rs) here h = elim (Bool-cases (before s r)) [
    | inl e ↦ rw e (h.0, All-place P before r rs here h.1)
    | inr e ↦ rw e (here, h)
  ]

  pub All-order_by {κ} :
      (P : R → Type κ) (before : R → R → Bool) (rs : List R) → All P rs → All P (order_by before rs)
  unfolding order_by
  All-order_by P before [] h = tt
  All-order_by P before (r ∷ rs) h =
      All-place P before r (order_by before rs) h.0 (All-order_by P before rs h.1)

  pub All-select_where {κ} :
      (P : R → Type κ) (p : R → Bool) (rs : List R)
      → All P rs
      → All (λ r. (p r ≡ true) × P r) (select_where p rs)
  unfolding select_where
  All-select_where P p [] h = tt
  All-select_where P p (r ∷ rs) h = elim (Bool-cases (p r)) [
    | inl e ↦ rw e ((e, h.0), All-select_where P p rs h.1)
    | inr e ↦ rw e (All-select_where P p rs h.1)
  ]

  -- An update that leaves a test alone leaves the row that the test finds in place.
  pub query_row-update_where :
      (q p : R → Bool) (set : R → R) (rs : List R)
      → ((r : R) → q (set r) ≡ q r)
      → query_row q (update_where p set rs)
        ≡ Option.map (λ r. if p r then set r else r) (query_row q rs)
  unfolding query_row update_where
  query_row-update_where q p set [] keep = refl
  query_row-update_where q p set (r ∷ rs) keep =
      ground (arith, keep r, query_row-update_where q p set rs keep)

  -- The row that a query finds passes its test.
  pub query_row_found : (p : R → Bool) (rs : List R) (r : R) → query_row p rs ≡ some r → p r ≡ true
  unfolding query_row
  query_row_found p [] r e = cc
  query_row_found p (s ∷ rs) r e = elim (Bool-cases (p s)) [
    | inl f ↦ let shown = simp (f, query_row) at e in cc
    | inr f ↦ query_row_found p rs r (simp (f, query_row) at e)
  ]

  pub query_row-insert_row :
      (q : R → Bool) (item : R) (rs : List R)
      → query_row q (insert_row item rs)
        ≡ (elim (query_row q rs) [ some r ↦ some r | none ↦ if q item then some item else none ])
  unfolding query_row insert_row
  query_row-insert_row q item [] = refl
  query_row-insert_row q item (r ∷ rs) = ground (arith, query_row-insert_row q item rs)

  pub All-insert_row {κ} :
      (P : R → Type κ) (item : R) (rs : List R) → P item → All P rs → All P (insert_row item rs)
  unfolding insert_row
  All-insert_row P item [] here h = (here, tt)
  All-insert_row P item (r ∷ rs) here h = (h.0, All-insert_row P item rs here h.1)
