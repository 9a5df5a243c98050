-- ===== src/Sql/Laws.antt =====
-- What the statements do to the row of an identifier, to the primary key and to counts.
use mathlib.Core.Option
use extension_lab.Common.{
  Bool, List, [], arith, false, holds, if◌then◌else◌, is_none, none, not, refl, some, true, ℕ, ◌&&◌,
  ◌+◌, ◌<◌, ◌==◌, ◌∷◌, ◌≡◌, ◌≤◌,
}
use extension_lab.Sql.Defs.{
  IsKeyed, changes_by, count_where, delete_where, find_by, find_where, insert_row, update_by,
  update_where,
}

-- 1 if the test holds.
abbrev pub one_if : Bool → ℕ
one_if b = if b then 1 else 0

module _ {A : Type 0} where
  pub find_where-holds : (p : A → Bool) (t : List A) (r : A) → find_where p t ≡ some r → p r ≡ true
  unfolding find_where
  find_where-holds p [] r h = ground arith
  find_where-holds p (x ∷ t) r h = ground (arith, find_where-holds p t r)

  pub count_where-insert :
      (q : A → Bool) (r : A) (t : List A)
      → count_where q (insert_row r t) ≡ count_where q t + one_if (q r)
  unfolding count_where insert_row
  count_where-insert q r [] = ground arith
  count_where-insert q r (x ∷ t) = ground (arith, count_where-insert q r t)

  pub find_where-insert :
      (p : A → Bool) (r : A) (t : List A)
      → find_where p (insert_row r t)
        ≡ (if is_none (find_where p t) then (if p r then some r else none) else find_where p t)
  unfolding find_where insert_row
  find_where-insert p r [] = ground arith
  find_where-insert p r (x ∷ t) = ground (arith, find_where-insert p r t)

  -- Tests that hold of the same rows count the same.
  pub count_where-le :
      (p q : A → Bool)
      → ((r : A) → p r ≡ true → q r ≡ true)
      → (t : List A) → count_where p t ≤ count_where q t
  unfolding count_where
  count_where-le p q h [] = omega arith
  count_where-le p q h (r ∷ t) = ground (arith, h r, count_where-le p q h t)

  pub count_where-zero : (p : A → Bool) (t : List A) → find_where p t ≡ none → count_where p t ≡ 0
  unfolding count_where find_where
  count_where-zero p [] h = refl
  count_where-zero p (r ∷ t) h = ground (arith, count_where-zero p t)

module _ {A : Type 0} (key : A → ℕ) where
  pub find_by-key : (id : ℕ) (t : List A) (r : A) → find_by key id t ≡ some r → key r ≡ id
  unfolding find_by
  find_by-key id t r h = ground (arith, find_where-holds (λ x. key x == id) t r)

  pub find_by-update_where :
      (p : A → Bool) (f : A → A)
      → ((r : A) → key (f r) ≡ key r)
      → (id : ℕ) (t : List A)
      → find_by key id (update_where p f t)
        ≡ Option.map (λ r. if p r then f r else r) (find_by key id t)
  unfolding find_by find_where update_where
  find_by-update_where p f same id [] = refl
  find_by-update_where p f same id (r ∷ t) =
      ground (arith, same r, find_by-update_where p f same id t)

  -- The row of an identifier after UPDATE … WHERE id = ? AND guard.
  pub find_by-update_by :
      (id : ℕ) (guard : A → Bool) (f : A → A)
      → ((r : A) → key (f r) ≡ key r)
      → (j : ℕ) (t : List A)
      → find_by key j (update_by key id guard f t) ≡ (
          if id == j
          then Option.map (λ r. if guard r then f r else r) (find_by key j t)
          else find_by key j t)
  unfolding update_by find_by find_where update_where
  find_by-update_by id guard f same j [] = ground arith
  find_by-update_by id guard f same j (r ∷ t) =
      ground (arith, same r, find_by-update_by id guard f same j t)

  pub find_by-insert :
      (r : A) (id : ℕ) (t : List A)
      → find_by key id (insert_row r t) ≡ (
          if is_none (find_by key id t)
          then (if key r == id then some r else none)
          else find_by key id t)
  unfolding find_by find_where insert_row
  find_by-insert r id [] = ground arith
  find_by-insert r id (x ∷ t) = ground (arith, find_by-insert r id t)

  find_by-delete_absent :
      (p : A → Bool) (id : ℕ) (t : List A)
      → find_by key id t ≡ none
      → find_by key id (delete_where p t) ≡ none
  unfolding find_by find_where delete_where
  find_by-delete_absent p id [] h = refl
  find_by-delete_absent p id (r ∷ t) h = ground (arith, find_by-delete_absent p id t)

  -- A row that is found after a DELETE was there before it, and does not meet its test.
  pub find_by-delete :
      (p : A → Bool) (id : ℕ) (t : List A)
      → IsKeyed key t
      → find_by key id (delete_where p t)
        ≡ (if holds p (find_by key id t) then none else find_by key id t)
  unfolding find_by find_where delete_where
  find_by-delete p id [] k = ground arith
  find_by-delete p id (r ∷ t) k =
      ground (arith, find_by-delete p id t, find_by-delete_absent p id t)

  pub update_where-IsKeyed :
      (p : A → Bool) (f : A → A)
      → ((r : A) → key (f r) ≡ key r)
      → (t : List A) → IsKeyed key t
      → IsKeyed key (update_where p f t)
  unfolding update_where
  update_where-IsKeyed p f same [] k = tt
  update_where-IsKeyed p f same (r ∷ t) k =
      ground
        (arith, same r, find_by-update_where p f same (key r) t, update_where-IsKeyed p f same t)

  pub update_by-IsKeyed :
      (id : ℕ) (guard : A → Bool) (f : A → A)
      → ((r : A) → key (f r) ≡ key r)
      → (t : List A) → IsKeyed key t
      → IsKeyed key (update_by key id guard f t)
  unfolding update_by
  update_by-IsKeyed id guard f same t k =
      update_where-IsKeyed (λ r. key r == id && guard r) f same t k

  pub insert_row-IsKeyed :
      (r : A) (t : List A)
      → IsKeyed key t
      → find_by key (key r) t ≡ none
      → IsKeyed key (insert_row r t)
  unfolding insert_row find_by find_where
  insert_row-IsKeyed r [] k h = ground arith
  insert_row-IsKeyed r (x ∷ t) k h =
      ground (arith, insert_row-IsKeyed r t, find_by-insert r (key x) t)

  pub delete_where-IsKeyed :
      (p : A → Bool) (t : List A) → IsKeyed key t → IsKeyed key (delete_where p t)
  unfolding delete_where
  delete_where-IsKeyed p [] k = tt
  delete_where-IsKeyed p (r ∷ t) k =
      ground (arith, delete_where-IsKeyed p t, find_by-delete_absent p (key r) t)

  update_by-unkeyed :
      (id : ℕ) (guard : A → Bool) (f : A → A) (t : List A)
      → find_by key id t ≡ none
      → update_by key id guard f t ≡ t
  unfolding update_by update_where find_by find_where
  update_by-unkeyed id guard f [] h = refl
  update_by-unkeyed id guard f (r ∷ t) h = ground (arith, update_by-unkeyed id guard f t)

  -- An UPDATE whose guard does not hold changes nothing.
  pub update_by-refused :
      (id : ℕ) (guard : A → Bool) (f : A → A) (t : List A)
      → IsKeyed key t
      → holds guard (find_by key id t) ≡ false
      → update_by key id guard f t ≡ t
  unfolding update_by update_where find_by find_where
  update_by-refused id guard f [] k h = refl
  update_by-refused id guard f (r ∷ t) k h =
      ground (arith, update_by-refused id guard f t, update_by-unkeyed id guard f t)

  count_by-unkeyed :
      (id : ℕ) (guard : A → Bool) (t : List A)
      → find_by key id t ≡ none
      → count_where (λ r. key r == id && guard r) t ≡ 0
  unfolding count_where find_by find_where
  count_by-unkeyed id guard [] h = refl
  count_by-unkeyed id guard (r ∷ t) h = ground (arith, count_by-unkeyed id guard t)

  count_by :
      (id : ℕ) (guard : A → Bool) (t : List A)
      → IsKeyed key t
      → count_where (λ r. key r == id && guard r) t ≡ one_if (holds guard (find_by key id t))
  unfolding count_where find_by find_where
  count_by id guard [] k = refl
  count_by id guard (r ∷ t) k = ground (arith, count_by id guard t, count_by-unkeyed id guard t)

  -- The number of changes is positive exactly when the row is there and meets the guard.
  pub changes_by_lem :
      (id : ℕ) (guard : A → Bool) (t : List A)
      → IsKeyed key t
      → changes_by key id guard t ≡ holds guard (find_by key id t)
  unfolding changes_by
  changes_by_lem id guard t k = ground (arith, count_by id guard t k)

  -- An UPDATE of one row moves a count by that row's part in it.
  pub count_where-update_by :
      (q guard : A → Bool) (f : A → A) (id : ℕ) (t : List A) (r : A)
      → IsKeyed key t
      → find_by key id t ≡ some r
      → guard r ≡ true
      → count_where q (update_by key id guard f t) + one_if (q r)
        ≡ count_where q t + one_if (q (f r))
  unfolding count_where update_by update_where find_by find_where
  count_where-update_by q guard f id [] r k h g = ground arith
  count_where-update_by q guard f id (x ∷ t) r k h g =
      ground (arith, count_where-update_by q guard f id t r, update_by-unkeyed id guard f t)

  -- A test that holds of more rows, and of one row that the other leaves out, counts more.
  pub count_where-lt :
      (p q : A → Bool)
      → ((r : A) → p r ≡ true → q r ≡ true)
      → (id : ℕ) (t : List A) (a : A) → find_by key id t ≡ some a
      → p a ≡ false
      → q a ≡ true
      → count_where p t < count_where q t
  unfolding count_where find_by find_where
  count_where-lt p q h id [] a e no_p has_q = ground arith
  count_where-lt p q h id (r ∷ t) a e no_p has_q =
      ground (arith, h r, count_where-lt p q h id t a, count_where-le p q h t)

  count_where-except_unkeyed :
      (p : A → Bool) (id : ℕ) (t : List A)
      → find_by key id t ≡ none
      → count_where (λ r. p r && not (key r == id)) t ≡ count_where p t
  unfolding count_where find_by find_where
  count_where-except_unkeyed p id [] e = refl
  count_where-except_unkeyed p id (x ∷ t) e = ground (arith, count_where-except_unkeyed p id t)

  -- A count that leaves out one row.
  pub count_where-except :
      (p : A → Bool) (id : ℕ) (t : List A) (r : A)
      → IsKeyed key t
      → find_by key id t ≡ some r
      → count_where (λ x. p x && not (key x == id)) t + one_if (p r) ≡ count_where p t
  unfolding count_where find_by find_where
  count_where-except p id [] r k e = ground arith
  count_where-except p id (x ∷ t) r k e =
      ground (arith, count_where-except p id t r, count_where-except_unkeyed p id t)
