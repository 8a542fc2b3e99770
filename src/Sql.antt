-- ===== src/Sql.antt =====
-- The meaning of the SQL statements that the repositories of internal/repository/postgres send,
-- over a table as the list of its rows: UPDATE and SELECT with a WHERE clause, the affected-row
-- count, ORDER BY (stable) and LIMIT.
pub mod Laws
use ticketing_backend.Prelude.{
  ℕ, suc, Bool, true, false, Option, none, some, List, [], ◌∷◌, ltb, take, if◌then◌else◌,
}

module _ {ℓ} {A : Type ℓ} where
  -- UPDATE … SET f WHERE p: the table afterwards.
  unfoldable pub update_where : (A → Bool) → (A → A) → List A → List A
  update_where p f [] = []
  update_where p f (x ∷ xs) = (if p x then f x else x) ∷ update_where p f xs

  -- RowsAffected() of such an UPDATE, or count(*) of a SELECT with that WHERE clause.
  unfoldable pub count_where : (A → Bool) → List A → ℕ
  count_where p [] = 0
  count_where p (x ∷ xs) = if p x then suc (count_where p xs) else count_where p xs

  -- QueryRow: the first row that the WHERE clause selects, `none` for pgx.ErrNoRows.
  unfoldable pub select_first : (A → Bool) → List A → Option A
  select_first p [] = none
  select_first p (x ∷ xs) = if p x then some x else select_first p xs

  -- Query: every row that the WHERE clause selects.
  unfoldable pub select_where : (A → Bool) → List A → List A
  select_where p [] = []
  select_where p (x ∷ xs) = if p x then x ∷ select_where p xs else select_where p xs

  unfoldable pub insert_sorted : (A → ℕ) → A → List A → List A
  insert_sorted key x [] = x ∷ []
  insert_sorted key x (y ∷ ys) =
      if ltb (key y) (key x) then y ∷ insert_sorted key x ys else x ∷ y ∷ ys

  -- ORDER BY key
  unfoldable pub order_by : (A → ℕ) → List A → List A
  unfolding insert_sorted
  order_by key [] = []
  order_by key (x ∷ xs) = insert_sorted key x (order_by key xs)

  unfoldable pub insert_by : (A → A → Bool) → A → List A → List A
  insert_by before x [] = x ∷ []
  insert_by before x (y ∷ ys) = if before y x then y ∷ insert_by before x ys else x ∷ y ∷ ys

  -- ORDER BY texts, whose order is `before`
  unfoldable pub sort_by : (A → A → Bool) → List A → List A
  unfolding insert_by
  sort_by before [] = []
  sort_by before (x ∷ xs) = insert_by before x (sort_by before xs)
