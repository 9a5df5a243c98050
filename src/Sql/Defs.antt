-- ===== src/Sql/Defs.antt =====
-- SELECT, COUNT, UPDATE and DELETE over a list of rows.
use extension_lab.Common.{
  Bool, List, Option, [], if◌then◌else◌, is_none, ltb, none, some, suc, true, ℕ, ◌&&◌, ◌++◌, ◌==◌,
  ◌∷◌, ◌≡◌,
}

module _ {A : Type 0} where
  -- SELECT * FROM t WHERE p
  unfoldable pub select_where : (A → Bool) → List A → List A
  select_where p [] = []
  select_where p (r ∷ t) = let rest = select_where p t in if p r then r ∷ rest else rest

  -- SELECT COUNT(*) FROM t WHERE p
  unfoldable pub count_where : (A → Bool) → List A → ℕ
  count_where p [] = 0
  count_where p (r ∷ t) = let rest = count_where p t in if p r then suc rest else rest

  -- The first row of SELECT * FROM t WHERE p, as `.get` returns it.
  unfoldable pub find_where : (A → Bool) → List A → Option A
  find_where p [] = none
  find_where p (r ∷ t) = if p r then some r else find_where p t

  -- UPDATE t SET f WHERE p; the number of changes is `count_where p t`.
  unfoldable pub update_where : (A → Bool) → (A → A) → List A → List A
  update_where p f [] = []
  update_where p f (r ∷ t) = (if p r then f r else r) ∷ update_where p f t

  -- DELETE FROM t WHERE p
  unfoldable pub delete_where : (A → Bool) → List A → List A
  delete_where p [] = []
  delete_where p (r ∷ t) = let rest = delete_where p t in if p r then rest else r ∷ rest

  -- INSERT INTO t: a new row comes last.
  unfoldable pub insert_row : A → List A → List A
  insert_row r t = t ++ r ∷ []

  -- ORDER BY: an insertion sort, in which rows that compare equal keep the order of the table.
  unfoldable pub insert_by : (A → A → Bool) → A → List A → List A
  insert_by before x [] = x ∷ []
  insert_by before x (y ∷ ys) =
      let rest = insert_by before x ys in if before y x then y ∷ rest else x ∷ y ∷ ys

  unfoldable pub order_by : (A → A → Bool) → List A → List A
  unfolding insert_by
  order_by before [] = []
  order_by before (x ∷ xs) = insert_by before x (order_by before xs)

  -- The first row of a result, `rows[0] ?? null`.
  abbrev pub first : List A → Option A
  first [] = none
  first (x ∷ xs) = some x

-- A table with an identifier column. A PRIMARY KEY is one with no identifier twice.
module _ {A : Type 0} (key : A → ℕ) where
  unfoldable pub find_by : ℕ → List A → Option A
  unfolding find_where
  find_by id t = find_where (λ r. key r == id) t

  abbrev pub IsKeyed : List A → Type 0
  IsKeyed [] = Unit {0}
  IsKeyed (r ∷ t) = (is_none (find_by (key r) t) ≡ true) × IsKeyed t

  -- UPDATE t SET f WHERE id = ? AND guard
  unfoldable pub update_by : ℕ → (A → Bool) → (A → A) → List A → List A
  unfolding update_where
  update_by id guard f t = update_where (λ r. key r == id && guard r) f t

  -- The `changes > 0` of that statement.
  unfoldable pub changes_by : ℕ → (A → Bool) → List A → Bool
  unfolding count_where
  changes_by id guard t = ltb 0 (count_where (λ r. key r == id && guard r) t)
