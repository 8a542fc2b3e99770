-- ===== src/Sql/Laws.antt =====
-- Laws of the statements in Sql.antt for a WHERE clause that selects by a key of the table.
use ticketing_backend.Prelude.{
  ℕ, ◌+◌, ◌≤◌, ◌≡◌, ◌≢◌, refl, subst, inl, inr, Bool, true, false, ◌&&◌, ◌||◌, Option, none, some,
  List, [], ◌∷◌, ◌++◌, arith, ltb, if◌then◌else◌, All, Bool-cases,
}
use ticketing_backend.Sql.{
  update_where, count_where, select_first, select_where, insert_sorted, order_by,
}

module _ {ℓ} {A : Type ℓ} where
  -- A row of the table is `g` of the row that stood there, if the clause selected it.
  abbrev pub updated : (A → Bool) → (A → A) → Option A → Option A
  updated q f none = none
  updated q f (some x) = some (if q x then f x else x)

  abbrev pub selected : (A → Bool) → Option A → ℕ
  selected q none = 0
  selected q (some x) = if q x then 1 else 0

  pub count-zero-select :
      (p : A → Bool) (xs : List A) → count_where p xs ≡ 0 → select_first p xs ≡ none
  unfolding count_where select_first
  count-zero-select p [] h = refl
  count-zero-select p (x ∷ xs) h = ground (arith, count-zero-select p xs)

  pub none-selected :
      (p q : A → Bool) (xs : List A)
      → ((x : A) → p x ≡ true → q x ≡ true)
      → count_where q xs ≡ 0
      → select_first p xs ≡ none
  unfolding count_where select_first
  none-selected p q [] implied h = refl
  none-selected p q (x ∷ xs) implied h = ground (arith, implied x, none-selected p q xs implied)

  pub count-and-le :
      (p q : A → Bool) (xs : List A) → count_where (λ x. p x && q x) xs ≤ count_where p xs
  unfolding count_where
  count-and-le p q [] = omega arith
  count-and-le p q (x ∷ xs) = ground (arith, count-and-le p q xs)

  pub count-le-or :
      (p q : A → Bool) (xs : List A) → count_where p xs ≤ count_where (λ x. p x || q x) xs
  unfolding count_where
  count-le-or p q [] = omega arith
  count-le-or p q (x ∷ xs) = ground (arith, count-le-or p q xs)

  -- An UPDATE whose clause is a key test and a guard affects one row if the keyed row passes
  -- the guard, and none otherwise.
  pub count-guarded :
      (key q : A → Bool) (xs : List A)
      → count_where key xs ≤ 1
      → count_where (λ x. key x && q x) xs ≡ selected q (select_first key xs)
  unfolding count_where select_first
  count-guarded key q [] h = refl
  count-guarded key q (x ∷ xs) h = ground (arith, count-guarded key q xs, count-and-le key q xs)

  -- Looking the same key up after it gives the row that the update made.
  pub select-update_same :
      (key q : A → Bool) (f : A → A) (xs : List A)
      → ((x : A) → key (f x) ≡ key x)
      → select_first key (update_where (λ x. key x && q x) f xs) ≡ updated q f (select_first key xs)
  unfolding select_first update_where
  select-update_same key q f [] keeps = refl
  select-update_same key q f (x ∷ xs) keeps =
      ground (arith, keeps x, select-update_same key q f xs keeps)

  -- An update that keeps the key changes the row that the key finds, if the clause selects it.
  pub select-update :
      (key p : A → Bool) (f : A → A) (xs : List A)
      → ((x : A) → key (f x) ≡ key x)
      → select_first key (update_where p f xs) ≡ updated p f (select_first key xs)
  unfolding select_first update_where
  select-update key p f [] keeps = refl
  select-update key p f (x ∷ xs) keeps = ground (arith, keeps x, select-update key p f xs keeps)

  -- An UPDATE that affects no row changes nothing.
  pub update-none :
      (p : A → Bool) (f : A → A) (xs : List A) → count_where p xs ≡ 0 → update_where p f xs ≡ xs
  unfolding count_where update_where
  update-none p f [] h = refl
  update-none p f (x ∷ xs) h = ground (arith, update-none p f xs)

  pub select-update_key :
      (key : A → Bool) (f : A → A) (xs : List A)
      → ((x : A) → key (f x) ≡ key x)
      → select_first key (update_where key f xs) ≡ updated (λ x. true) f (select_first key xs)
  unfolding select_first update_where
  select-update_key key f [] keeps = refl
  select-update_key key f (x ∷ xs) keeps = ground (arith, keeps x, select-update_key key f xs keeps)

  pub count-key :
      (key : A → Bool) (xs : List A)
      → count_where key xs ≤ 1
      → count_where key xs ≡ selected (λ x. true) (select_first key xs)
  unfolding count_where select_first
  count-key key [] h = refl
  count-key key (x ∷ xs) h = ground (arith, count-key key xs)

  -- Rows that the clause excludes are looked up as before.
  pub select-update_other :
      (key p : A → Bool) (f : A → A) (xs : List A)
      → ((x : A) → p x ≡ true → (key x ≡ false) × (key (f x) ≡ false))
      → select_first key (update_where p f xs) ≡ select_first key xs
  unfolding select_first update_where
  select-update_other key p f [] apart = refl
  select-update_other key p f (x ∷ xs) apart = elim (Bool-cases (p x)) [
    | inl e ↦ ground (arith, apart x e, select-update_other key p f xs apart)
    | inr e ↦ ground (arith, select-update_other key p f xs apart)
  ]

  -- An update that leaves a column alone leaves every count over that column alone.
  pub count-update :
      (key p : A → Bool) (f : A → A) (xs : List A)
      → ((x : A) → key (f x) ≡ key x)
      → count_where key (update_where p f xs) ≡ count_where key xs
  unfolding count_where update_where
  count-update key p f [] keeps = refl
  count-update key p f (x ∷ xs) keeps = ground (arith, keeps x, count-update key p f xs keeps)

  pub count-append :
      (p : A → Bool) (xs ys : List A)
      → count_where p (xs ++ ys) ≡ count_where p xs + count_where p ys
  unfolding count_where
  count-append p [] ys = omega arith
  count-append p (x ∷ xs) ys = ground (arith, count-append p xs ys)

  pub select-first_true :
      (p : A → Bool) (xs : List A) {x : A} → select_first p xs ≡ some x → p x ≡ true
  unfolding select_first
  select-first_true p [] h = cc
  select-first_true p (y ∷ ys) {x} h = ground (arith, select-first_true p ys {x = x})

  pub select-count :
      (p : A → Bool) (xs : List A) {x : A} → select_first p xs ≡ some x → count_where p xs ≢ 0
  unfolding select_first count_where
  select-count p [] h = cc
  select-count p (y ∷ ys) {x} h = ground (arith, select-count p ys {x = x})

  pub select-append_none :
      (p : A → Bool) (xs ys : List A)
      → select_first p xs ≡ none
      → select_first p (xs ++ ys) ≡ select_first p ys
  unfolding select_first
  select-append_none p [] ys h = refl
  select-append_none p (x ∷ xs) ys h = ground (arith, select-append_none p xs ys)

  pub select-append_some :
      (p : A → Bool) (xs ys : List A) {x : A}
      → select_first p xs ≡ some x
      → select_first p (xs ++ ys) ≡ some x
  unfolding select_first
  select-append_some p [] ys h = cc
  select-append_some p (y ∷ xs) ys {x} h = ground (arith, select-append_some p xs ys {x = x})

module _ {ℓ κ} {A : Type ℓ} (P : A → Type κ) where
  pub update-All :
      (p : A → Bool) (f : A → A) (xs : List A)
      → ((x : A) → P x → P (f x))
      → All P xs
      → All P (update_where p f xs)
  unfolding update_where
  update-All p f [] step h = tt
  update-All p f (x ∷ xs) step h = elim (Bool-cases (p x)) [
    | inl e ↦ rw e (step x h.0, update-All p f xs step h.1)
    | inr e ↦ rw e (h.0, update-All p f xs step h.1)
  ]

  pub select-All :
      (p : A → Bool) (xs : List A) {x : A} → All P xs → select_first p xs ≡ some x → P x
  unfolding select_first
  select-All p [] h e = cc
  select-All p (y ∷ ys) {x} h e = elim (Bool-cases (p y)) [
    | inl t ↦ subst P (ground arith) h.0
    | inr t ↦ select-All p ys h.1 (ground arith)
  ]

  insert_sorted-All :
      (key : A → ℕ) (x : A) (xs : List A) → P x → All P xs → All P (insert_sorted key x xs)
  unfolding insert_sorted
  insert_sorted-All key x [] px h = (px, tt)
  insert_sorted-All key x (y ∷ ys) px h = elim (Bool-cases (ltb (key y) (key x))) [
    | inl e ↦ rw e (h.0, insert_sorted-All key x ys px h.1)
    | inr e ↦ rw e (px, h)
  ]

  pub order_by-All : (key : A → ℕ) (xs : List A) → All P xs → All P (order_by key xs)
  unfolding order_by
  order_by-All key [] h = tt
  order_by-All key (x ∷ xs) h =
      insert_sorted-All key x (order_by key xs) h.0 (order_by-All key xs h.1)

-- What a WHERE clause selects satisfies it, together with whatever every row satisfies.
pub select_where-All {ℓ κ} :
    {A : Type ℓ} (P : A → Type κ) (p : A → Bool) (xs : List A)
    → All P xs
    → All (λ x. (p x ≡ true) × P x) (select_where p xs)
unfolding select_where
select_where-All P p [] h = tt
select_where-All P p (x ∷ xs) h = elim (Bool-cases (p x)) [
  | inl e ↦ rw e ((e, h.0), select_where-All P p xs h.1)
  | inr e ↦ rw e (select_where-All P p xs h.1)
]
