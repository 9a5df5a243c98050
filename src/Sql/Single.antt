-- ===== src/Sql/Single.antt =====
-- Statements whose condition holds of one row at most.
use extension_lab.Common.{
  Bool, Bool-cases, List, [], arith, false, inl, inr, none, refl, some, true, ◌&&◌, ◌+◌, ◌∷◌, ◌≡◌,
  ◌≤◌,
}
use extension_lab.Sql.Defs.{count_where, delete_where, find_where, insert_row, update_where}
use extension_lab.Sql.Laws.{one_if}

module _ {A : Type 0} where
  pub update_none :
      (q : A → Bool) (f : A → A) (t : List A) → count_where q t ≡ 0 → update_where q f t ≡ t
  unfolding count_where update_where
  update_none q f [] h = refl
  update_none q f (r ∷ t) h = ground (arith, update_none q f t)

  pub delete_zero : (q : A → Bool) (t : List A) → count_where q t ≡ 0 → delete_where q t ≡ t
  unfolding count_where delete_where
  delete_zero q [] h = refl
  delete_zero q (r ∷ t) h = ground (arith, delete_zero q t)

  -- One row changes, so that a count changes by what that row counts for.
  pub count_where-update_one :
      (p q : A → Bool) (f : A → A) (t : List A) (r : A)
      → find_where q t ≡ some r
      → count_where q t ≤ 1
      → count_where p (update_where q f t) + one_if (p r) ≡ count_where p t + one_if (p (f r))
  unfolding count_where update_where find_where
  count_where-update_one p q f [] r here few = absurd (ground arith)
  count_where-update_one p q f (x ∷ t) r here few = elim (Bool-cases (q x)) [
    | inl h ↦ ground (arith, update_none q f t)
    | inr h ↦ ground (arith, count_where-update_one p q f t r)
  ]

  pub count_where-delete_one :
      (p q : A → Bool) (t : List A) (r : A)
      → find_where q t ≡ some r
      → count_where q t ≤ 1
      → count_where p (delete_where q t) + one_if (p r) ≡ count_where p t
  unfolding count_where delete_where find_where
  count_where-delete_one p q [] r here few = absurd (ground arith)
  count_where-delete_one p q (x ∷ t) r here few = elim (Bool-cases (q x)) [
    | inl h ↦ ground (arith, delete_zero q t)
    | inr h ↦ ground (arith, count_where-delete_one p q t r)
  ]

  -- An update that leaves a test alone leaves its count alone.
  pub count_where-update_same :
      (p q : A → Bool) (f : A → A)
      → ((r : A) → p (f r) ≡ p r)
      → (t : List A) → count_where p (update_where q f t) ≡ count_where p t
  unfolding count_where update_where
  count_where-update_same p q f h [] = refl
  count_where-update_same p q f h (x ∷ t) = ground (arith, h x, count_where-update_same p q f h t)

  -- Deletion of the rows that meet a test, and of none or all of those that meet another.
  pub count_where-delete_all :
      (p q : A → Bool)
      → ((r : A) → p r ≡ true → q r ≡ true)
      → (t : List A) → count_where p (delete_where q t) ≡ 0
  unfolding count_where delete_where
  count_where-delete_all p q h [] = refl
  count_where-delete_all p q h (x ∷ t) = ground (arith, h x, count_where-delete_all p q h t)

  pub count_where-delete_apart :
      (p q : A → Bool)
      → ((r : A) → p r ≡ true → q r ≡ false)
      → (t : List A) → count_where p (delete_where q t) ≡ count_where p t
  unfolding count_where delete_where
  count_where-delete_apart p q h [] = refl
  count_where-delete_apart p q h (x ∷ t) = ground (arith, h x, count_where-delete_apart p q h t)

  pub count_where-delete_le :
      (p q : A → Bool) (t : List A) → count_where p (delete_where q t) ≤ count_where p t
  unfolding count_where delete_where
  count_where-delete_le p q [] = omega arith
  count_where-delete_le p q (x ∷ t) = ground (arith, count_where-delete_le p q t)

  pub find_where-holds : (q : A → Bool) (t : List A) (r : A) → find_where q t ≡ some r → q r ≡ true
  unfolding find_where
  find_where-holds q [] r h = absurd (ground arith)
  find_where-holds q (x ∷ t) r h = ground (arith, find_where-holds q t r)

  pub count_where-some :
      (p q : A → Bool) (t : List A) (r : A)
      → find_where q t ≡ some r
      → p r ≡ true
      → 1 ≤ count_where p t
  unfolding find_where count_where
  count_where-some p q [] r h e = absurd (ground arith)
  count_where-some p q (x ∷ t) r h e = ground (arith, count_where-some p q t r)

  -- An update of other rows leaves the row that a test finds.
  pub find_where-update_apart :
      (p q : A → Bool) (f : A → A)
      → ((r : A) → q r ≡ true → p r ≡ false)
      → ((r : A) → p (f r) ≡ p r)
      → (t : List A) → find_where p (update_where q f t) ≡ find_where p t
  unfolding find_where update_where
  find_where-update_apart p q f h g [] = refl
  find_where-update_apart p q f h g (x ∷ t) =
      ground (arith, h x, g x, find_where-update_apart p q f h g t)

  -- An update of the row that a test finds, and keeps finding.
  pub find_where-update_hit :
      (p q : A → Bool) (f : A → A)
      → ((r : A) → p (f r) ≡ p r)
      → (t : List A) (r : A) → find_where p t ≡ some r
      → q r ≡ true
      → find_where p (update_where q f t) ≡ some (f r)
  unfolding find_where update_where
  find_where-update_hit p q f g [] r h e = absurd (ground arith)
  find_where-update_hit p q f g (x ∷ t) r h e =
      ground (arith, g x, find_where-update_hit p q f g t r)

  pub find_where-insert_new :
      (p : A → Bool) (r : A) (t : List A)
      → find_where p t ≡ none
      → p r ≡ true
      → find_where p (insert_row r t) ≡ some r
  unfolding find_where insert_row
  find_where-insert_new p r [] h e = ground arith
  find_where-insert_new p r (x ∷ t) h e = ground (arith, find_where-insert_new p r t)

  pub find_where-and :
      (p q : A → Bool) (t : List A) (r : A)
      → find_where p t ≡ some r
      → q r ≡ true
      → find_where (λ x. p x && q x) t ≡ some r
  unfolding find_where
  find_where-and p q [] r h e = absurd (ground arith)
  find_where-and p q (x ∷ t) r h e = ground (arith, find_where-and p q t r)

  pub count_where-update_le :
      (p q : A → Bool) (f : A → A)
      → ((r : A) → p (f r) ≡ true → p r ≡ true)
      → (t : List A) → count_where p (update_where q f t) ≤ count_where p t
  unfolding count_where update_where
  count_where-update_le p q f h [] = omega arith
  count_where-update_le p q f h (x ∷ t) = ground (arith, h x, count_where-update_le p q f h t)
