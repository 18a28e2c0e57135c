-- ===== src/Db/Rows.antt =====
-- Rows of a table: WHERE clauses as Boolean tests on a list of rows, in the order of a SELECT.
use copfvtci.Prelude.{
  ℕ, suc, ◌+◌, ◌≤◌, ◌≡◌, refl, Bool, true, false, ◌&&◌, Option, none, some, List, [], ◌∷◌, ◌++◌,
  arith, if◌then◌else◌,
}

module _ {ℓ} {A : Type ℓ} where
  -- SELECT … WHERE p, the first row (sqlx's Get)
  unfoldable pub find_row : (A → Bool) → List A → Option A
  find_row p [] = none
  find_row p (x ∷ xs) = if p x then some x else find_row p xs

  unfoldable pub count_rows : (A → Bool) → List A → ℕ
  count_rows p [] = 0
  count_rows p (x ∷ xs) = if p x then suc (count_rows p xs) else count_rows p xs

  -- SELECT … WHERE p (sqlx's Select)
  unfoldable pub select_rows : (A → Bool) → List A → List A
  select_rows p [] = []
  select_rows p (x ∷ xs) = if p x then x ∷ select_rows p xs else select_rows p xs

  -- UPDATE … SET f WHERE p
  unfoldable pub update_rows : (A → Bool) → (A → A) → List A → List A
  update_rows p f [] = []
  update_rows p f (x ∷ xs) = (if p x then f x else x) ∷ update_rows p f xs

  -- DELETE … WHERE p
  unfoldable pub delete_rows : (A → Bool) → List A → List A
  delete_rows p [] = []
  delete_rows p (x ∷ xs) = if p x then delete_rows p xs else x ∷ delete_rows p xs

  pub find_row-append :
      (p : A → Bool) (xs ys : List A) → find_row p xs ≡ none → find_row p (xs ++ ys) ≡ find_row p ys
  unfolding find_row
  find_row-append p [] ys h = refl
  find_row-append p (x ∷ xs) ys h = ground (arith, find_row-append p xs ys)

  pub find_row-append_some :
      (p : A → Bool) (xs ys : List A) (a : A)
      → find_row p xs ≡ some a
      → find_row p (xs ++ ys) ≡ some a
  unfolding find_row
  find_row-append_some p [] ys a h = ground arith
  find_row-append_some p (x ∷ xs) ys a h = ground (arith, find_row-append_some p xs ys a)

  pub find_row-true : (p : A → Bool) (xs : List A) (a : A) → find_row p xs ≡ some a → p a ≡ true
  unfolding find_row
  find_row-true p [] a h = ground arith
  find_row-true p (x ∷ xs) a h = ground (arith, find_row-true p xs a)

  -- an update that keeps the test is seen by the test
  pub find_row-update_rows :
      (p : A → Bool) (f : A → A)
      → ((x : A) → p (f x) ≡ p x)
      → (xs : List A) (a : A) → find_row p xs ≡ some a
      → find_row p (update_rows p f xs) ≡ some (f a)
  unfolding find_row update_rows
  find_row-update_rows p f keep [] a h = ground arith
  find_row-update_rows p f keep (x ∷ xs) a h =
      ground (arith, keep x, find_row-update_rows p f keep xs a)

  -- an update of other rows is not
  pub find_row-update_rows_other :
      (q p : A → Bool) (f : A → A)
      → ((x : A) → p x ≡ true → q x ≡ false)
      → ((x : A) → q (f x) ≡ q x)
      → (xs : List A) → find_row q (update_rows p f xs) ≡ find_row q xs
  unfolding find_row update_rows
  find_row-update_rows_other q p f apart keep [] = refl
  find_row-update_rows_other q p f apart keep (x ∷ xs) =
      ground (arith, apart x, keep x, find_row-update_rows_other q p f apart keep xs)

  pub find_row-delete_rows : (p : A → Bool) (xs : List A) → find_row p (delete_rows p xs) ≡ none
  unfolding find_row delete_rows
  find_row-delete_rows p [] = refl
  find_row-delete_rows p (x ∷ xs) = ground (arith, find_row-delete_rows p xs)

  pub find_row-delete_rows_other :
      (q p : A → Bool)
      → ((x : A) → p x ≡ true → q x ≡ false)
      → (xs : List A) → find_row q (delete_rows p xs) ≡ find_row q xs
  unfolding find_row delete_rows
  find_row-delete_rows_other q p apart [] = refl
  find_row-delete_rows_other q p apart (x ∷ xs) =
      ground (arith, apart x, find_row-delete_rows_other q p apart xs)

  pub count_rows-append :
      (p : A → Bool) (xs ys : List A) → count_rows p (xs ++ ys) ≡ count_rows p xs + count_rows p ys
  unfolding count_rows
  count_rows-append p [] ys = omega arith
  count_rows-append p (x ∷ xs) ys = ground (arith, count_rows-append p xs ys)

  pub count_rows-find_row-none :
      (p : A → Bool) (xs : List A) → find_row p xs ≡ none → count_rows p xs ≡ 0
  unfolding count_rows find_row
  count_rows-find_row-none p [] h = refl
  count_rows-find_row-none p (x ∷ xs) h = ground (arith, count_rows-find_row-none p xs)

  pub count_rows-find_row-some :
      (p : A → Bool) (xs : List A) (a : A) → find_row p xs ≡ some a → 1 ≤ count_rows p xs
  unfolding count_rows find_row
  count_rows-find_row-some p [] a h = ground arith
  count_rows-find_row-some p (x ∷ xs) a h = ground (arith, count_rows-find_row-some p xs a)

  -- an update that keeps a test keeps how many rows pass it
  pub count_rows-update_rows :
      (q p : A → Bool) (f : A → A)
      → ((x : A) → q (f x) ≡ q x)
      → (xs : List A) → count_rows q (update_rows p f xs) ≡ count_rows q xs
  unfolding count_rows update_rows
  count_rows-update_rows q p f keep [] = refl
  count_rows-update_rows q p f keep (x ∷ xs) =
      ground (arith, keep x, count_rows-update_rows q p f keep xs)

  pub count_rows-delete_rows_le :
      (q p : A → Bool) (xs : List A) → count_rows q (delete_rows p xs) ≤ count_rows q xs
  unfolding count_rows delete_rows
  count_rows-delete_rows_le q p [] = omega arith
  count_rows-delete_rows_le q p (x ∷ xs) = ground (arith, count_rows-delete_rows_le q p xs)

  count_rows-and_le :
      (p q : A → Bool) (xs : List A) → count_rows (λ x. p x && q x) xs ≤ count_rows p xs
  unfolding count_rows
  count_rows-and_le p q [] = omega arith
  count_rows-and_le p q (x ∷ xs) = ground (arith, count_rows-and_le p q xs)

  -- a stronger test that the only row passes counts that row
  pub count_rows-and_one :
      (p q : A → Bool) (xs : List A) (a : A)
      → find_row p xs ≡ some a
      → count_rows p xs ≡ 1
      → q a ≡ true
      → count_rows (λ x. p x && q x) xs ≡ 1
  unfolding find_row count_rows
  count_rows-and_one p q [] a h one ha = ground arith
  count_rows-and_one p q (x ∷ xs) a h one ha =
      ground (arith, count_rows-and_one p q xs a, count_rows-and_le p q xs)

  pub find_row-append_other :
      (p : A → Bool) (xs : List A) (y : A) → p y ≡ false → find_row p (xs ++ y ∷ []) ≡ find_row p xs
  unfolding find_row
  find_row-append_other p [] y h = rw h
  find_row-append_other p (x ∷ xs) y h = ground (arith, find_row-append_other p xs y)
