-- ===== src/Sql/Order.antt =====
-- What a SELECT with ORDER BY and LIMIT returns.
use mathlib.Core.Path.{subst}
use extension_lab.Common.{
  All, Bool, Bool-cases, List, [], arith, false, inl, inr, none, refl, some, suc, take, true, zero,
  ℕ, ◌&&◌, ◌<◌, ◌∷◌, ◌≡◌,
}
use extension_lab.Sql.Defs.{
  IsKeyed, count_where, delete_where, find_by, find_where, first, insert_by, insert_row, order_by,
  select_where, update_by, update_where,
}

-- What ORDER BY compares by: the tests for "comes before" of a strict order up to ties.
pub record IsRanking {A : Type 0} (before : A → A → Bool) : Type 0 where
  pub asymmetric : (x y : A) → before x y ≡ true → before y x ≡ false
  pub tied : (x y z : A) → before y x ≡ false → before z y ≡ false → before z x ≡ false

module _ {A : Type 0} (P : A → Type 0) where
  pub All-map : (Q : A → Type 0) → ((x : A) → P x → Q x) → (xs : List A) → All P xs → All Q xs
  All-map Q h [] a = tt
  All-map Q h (x ∷ xs) a = (h x a.0, All-map Q h xs a.1)

  pub All-select_where :
      (p : A → Bool) (t : List A) → All (λ r. p r ≡ true → P r) t → All P (select_where p t)
  unfolding select_where
  All-select_where p [] a = tt
  All-select_where p (r ∷ t) a = ground (arith, All-select_where p t)

  pub All-take : (n : ℕ) (xs : List A) → All P xs → All P (take n xs)
  All-take zero xs a = tt
  All-take (suc n) [] a = tt
  All-take (suc n) (x ∷ xs) a = (a.0, All-take n xs a.1)

  module _ (before : A → A → Bool) where
    All-insert_by : (x : A) (ys : List A) → P x → All P ys → All P (insert_by before x ys)
    unfolding insert_by
    All-insert_by x [] p a = (p, tt)
    All-insert_by x (y ∷ ys) p a = ground (arith, All-insert_by x ys p)

    pub All-order_by : (xs : List A) → All P xs → All P (order_by before xs)
    unfolding order_by
    All-order_by [] a = tt
    All-order_by (x ∷ xs) a = All-insert_by x (order_by before xs) a.0 (All-order_by xs a.1)

    All-of_insert_by : (x : A) (ys : List A) → All P (insert_by before x ys) → P x × All P ys
    unfolding insert_by
    All-of_insert_by x [] a = (a.0, tt)
    All-of_insert_by x (y ∷ ys) a = ground (arith, All-of_insert_by x ys)

    -- ORDER BY loses no row.
    pub All-of_order_by : (xs : List A) → All P (order_by before xs) → All P xs
    unfolding order_by
    All-of_order_by [] a = tt
    All-of_order_by (x ∷ xs) a =
        let (p, rest) = All-of_insert_by x (order_by before xs) a in (p, All-of_order_by xs rest)

module _ {A : Type 0} (before : A → A → Bool) (ranking : IsRanking before) where
  open ranking use {asymmetric, tied}

  abbrev Least : A → List A → Type 0
  Least m = All (λ r. before r m ≡ false)

  abbrev LeastFirst : List A → Type 0
  LeastFirst [] = Unit {0}
  LeastFirst (x ∷ xs) = Least x xs

  Least-insert_by :
      (m x : A) (ys : List A) → before x m ≡ false → Least m ys → Least m (insert_by before x ys)
  Least-insert_by m x ys = All-insert_by (λ r. before r m ≡ false) before x ys

  insert_by-LeastFirst : (x : A) (ys : List A) → LeastFirst ys → LeastFirst (insert_by before x ys)
  unfolding insert_by
  insert_by-LeastFirst x [] a = tt
  insert_by-LeastFirst x (y ∷ ys) a = elim (Bool-cases (before y x)) [
    | inl e ↦ rw e (Least-insert_by y x ys (asymmetric y x e) a)
    | inr e ↦ rw e (
      e,
      All-map (λ r. before r y ≡ false) (λ r. before r x ≡ false) (λ r h. tied x y r e h) ys a,
    )
  ]

  order_by-LeastFirst : (xs : List A) → LeastFirst (order_by before xs)
  unfolding order_by
  order_by-LeastFirst [] = tt
  order_by-LeastFirst (x ∷ xs) =
      insert_by-LeastFirst x (order_by before xs) (order_by-LeastFirst xs)

  Least-of_first :
      (m : A) (ys : List A) → first ys ≡ some m → LeastFirst ys → before m m ≡ false → Least m ys
  Least-of_first m [] e a i = tt
  Least-of_first m (y ∷ ys) e a i =
      let q : y ≡ m = ground arith in (rw q i, subst (λ z. Least z ys) q a)

  irreflexive : (m : A) → before m m ≡ false
  irreflexive m = elim (Bool-cases (before m m)) [ inl e ↦ asymmetric m m e | inr e ↦ e ]

  -- No row of the result comes before its first one.
  pub order_by-least :
      (m : A) (xs : List A) → first (order_by before xs) ≡ some m → All (λ r. before r m ≡ false) xs
  order_by-least m xs e =
      All-of_order_by (λ r. before r m ≡ false) before xs
        (Least-of_first m (order_by before xs) e (order_by-LeastFirst xs) (irreflexive m))

module _ {A : Type 0} (p q : A → Bool) where
  pub count_where-of_All :
      (t : List A) → All (λ r. q r ≡ false) (select_where p t) → count_where (λ r. p r && q r) t ≡ 0
  unfolding count_where select_where
  count_where-of_All [] a = refl
  count_where-of_All (r ∷ t) a = ground (arith, count_where-of_All t)

module _ {A : Type 0} where
  pub first-take : (n : ℕ) (xs : List A) → 0 < n → first (take n xs) ≡ first xs
  first-take zero xs h = absurd (omega arith)
  first-take (suc n) [] h = refl
  first-take (suc n) (x ∷ xs) h = refl

  pub first-holds : (P : A → Type 0) (xs : List A) (x : A) → All P xs → first xs ≡ some x → P x
  first-holds P [] x a e = ground arith
  first-holds P (y ∷ ys) x a e = ground arith

  All-of_nil : (P : A → Type 0) (xs : List A) → first xs ≡ none → All P xs
  All-of_nil P [] e = tt
  All-of_nil P (x ∷ xs) e = ground arith

  count_where-none :
      (p : A → Bool) (t : List A) → All (λ r. ⊥) (select_where p t) → count_where p t ≡ 0
  unfolding count_where select_where
  count_where-none p [] a = refl
  count_where-none p (r ∷ t) a = ground (arith, count_where-none p t)

  pub select_where-nil :
      (before : A → A → Bool) (p : A → Bool) (t : List A)
      → first (order_by before (select_where p t)) ≡ none
      → count_where p t ≡ 0
  select_where-nil before p t e =
      count_where-none p t
        (All-of_order_by (λ r. ⊥) before (select_where p t) (All-of_nil (λ r. ⊥) _ e))

module _ {A : Type 0} (key : A → ℕ) where
  -- With a primary key, each row is the one that its identifier finds.
  pub All-found : (t : List A) → IsKeyed key t → All (λ r. find_by key (key r) t ≡ some r) t
  unfolding find_by find_where
  All-found [] k = tt
  All-found (x ∷ t) k = (
    ground arith,
    All-map (λ r. find_by key (key r) t ≡ some r) (λ r. find_by key (key r) (x ∷ t) ≡ some r)
        (λ r h. ground arith) t (All-found t k.1),
  )

module _ {A : Type 0} (P : A → Type 0) where
  -- An UPDATE keeps what its assignments keep of the rows that meet the guard.
  pub All-update_by :
      (key : A → ℕ) (id : ℕ) (guard : A → Bool) (f : A → A)
      → ((r : A) → guard r ≡ true → P r → P (f r))
      → (t : List A) → All P t
      → All P (update_by key id guard f t)
  unfolding update_by update_where
  All-update_by key id guard f keep [] a = tt
  All-update_by key id guard f keep (r ∷ t) a =
      ground (arith, keep r, All-update_by key id guard f keep t)

  pub All-delete_where : (p : A → Bool) (t : List A) → All P t → All P (delete_where p t)
  unfolding delete_where
  All-delete_where p [] a = tt
  All-delete_where p (r ∷ t) a = ground (arith, All-delete_where p t)

  pub All-insert_row : (r : A) (t : List A) → P r → All P t → All P (insert_row r t)
  unfolding insert_row
  All-insert_row r [] h a = (h, tt)
  All-insert_row r (x ∷ t) h a = (a.0, All-insert_row r t h a.1)

  pub All-find_by :
      (key : A → ℕ) (id : ℕ) (t : List A) (r : A) → find_by key id t ≡ some r → All P t → P r
  unfolding find_by find_where
  All-find_by key id [] r e a = ground arith
  All-find_by key id (x ∷ t) r e a = ground (arith, All-find_by key id t r)
