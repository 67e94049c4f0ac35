-- ===== src/Sql/Order.antt =====
-- ORDER BY … DESC and LIMIT, over the rows that a query has selected.
use starfire_agent_team.Prelude.{
  any, ap, ◌+◌, ◌||◌, ℕ, zero, suc, ◌≤◌, ◌≡◌, refl, Bool, true, ◌&&◌, List, [], ◌∷◌, if◌then◌else◌,
  leb, ltb, ◌++◌, all, arith, length,
}
use starfire_agent_team.Sql.{select}

module _ {ℓ} {A : Type ℓ} where
  insert_desc : (A → ℕ) → A → List A → List A
  insert_desc key r [] = r ∷ []
  insert_desc key r (x ∷ xs) =
      let rest = insert_desc key r xs in if leb (key x) (key r) then r ∷ x ∷ xs else x ∷ rest

  -- ORDER BY key DESC, with rows of the same key in the order of the table
  unfoldable pub order_desc : (A → ℕ) → List A → List A
  unfolding insert_desc
  order_desc key [] = []
  order_desc key (r ∷ rows) = insert_desc key r (order_desc key rows)

  -- LIMIT n
  unfoldable pub limit : ℕ → List A → List A
  limit zero rows = []
  limit (suc n) [] = []
  limit (suc n) (r ∷ rows) = r ∷ limit n rows

  all-insert_desc :
      (q : A → Bool) (key : A → ℕ) (r : A) (rows : List A)
      → all q (insert_desc key r rows) ≡ (q r && all q rows)
  unfolding insert_desc
  all-insert_desc q key r [] = refl
  all-insert_desc q key r (x ∷ xs) = ground (arith, all-insert_desc q key r xs)

  pub all-order_desc :
      (q : A → Bool) (key : A → ℕ) (rows : List A) → all q (order_desc key rows) ≡ all q rows
  unfolding order_desc
  all-order_desc q key [] = refl
  all-order_desc q key (r ∷ rows) =
      ground (arith, all-insert_desc q key r (order_desc key rows), all-order_desc q key rows)

  pub all-limit :
      (q : A → Bool) (n : ℕ) (rows : List A) → all q rows ≡ true → all q (limit n rows) ≡ true
  unfolding limit
  all-limit q zero rows h = refl
  all-limit q (suc n) [] h = refl
  all-limit q (suc n) (r ∷ rows) h = ground (arith, all-limit q n rows)

  pub length-limit : (n : ℕ) (rows : List A) → length (limit n rows) ≤ n
  unfolding limit
  length-limit zero rows = omega arith
  length-limit (suc n) [] = omega arith
  length-limit (suc n) (r ∷ rows) = ground (arith, length-limit n rows)

  pub all-select :
      (q p : A → Bool)
      → ((r : A) → p r ≡ true → q r ≡ true)
      → (rows : List A) → all q (select p rows) ≡ true
  unfolding select
  all-select q p h [] = refl
  all-select q p h (r ∷ rows) = ground (arith, h r, all-select q p h rows)

  pub all-select_of :
      (f g p : A → Bool)
      → ((r : A) → f r ≡ true → p r ≡ true → g r ≡ true)
      → (rows : List A) → all f rows ≡ true
      → all g (select p rows) ≡ true
  unfolding select
  all-select_of f g p h [] e = refl
  all-select_of f g p h (r ∷ rows) e = ground (arith, h r, all-select_of f g p h rows)

  pub all_of :
      (f g : A → Bool)
      → ((r : A) → f r ≡ true → g r ≡ true)
      → (rows : List A) → all f rows ≡ true
      → all g rows ≡ true
  all_of f g h [] e = refl
  all_of f g h (r ∷ rows) e = ground (arith, h r, all_of f g h rows)

  pub select-all : (p : A → Bool) (rows : List A) → all p rows ≡ true → select p rows ≡ rows
  unfolding select
  select-all p [] e = refl
  select-all p (r ∷ rows) e = ground (arith, select-all p rows)

  pub select-append :
      (p : A → Bool) (rows : List A) (r : A)
      → p r ≡ true
      → select p (rows ++ r ∷ []) ≡ select p rows ++ r ∷ []
  unfolding select
  select-append p [] r e = ground arith
  select-append p (x ∷ rows) r e = ground (arith, select-append p rows r)

  -- A last row with the largest key comes first.
  pub order_desc_last :
      (key : A → ℕ) (rows : List A) (r : A)
      → all (λ x. ltb (key x) (key r)) rows ≡ true
      → order_desc key (rows ++ r ∷ []) ≡ r ∷ order_desc key rows
  unfolding order_desc insert_desc
  order_desc_last key [] r e = refl
  order_desc_last key (x ∷ rows) r e = ground (arith, order_desc_last key rows r)

  insert_asc : (A → ℕ) → A → List A → List A
  insert_asc key r [] = r ∷ []
  insert_asc key r (x ∷ xs) =
      let rest = insert_asc key r xs in if leb (key r) (key x) then r ∷ x ∷ xs else x ∷ rest

  -- ORDER BY key ASC
  unfoldable pub order_asc : (A → ℕ) → List A → List A
  unfolding insert_asc
  order_asc key [] = []
  order_asc key (r ∷ rows) = insert_asc key r (order_asc key rows)

  any-insert_asc :
      (q : A → Bool) (key : A → ℕ) (r : A) (rows : List A)
      → any q (insert_asc key r rows) ≡ (q r || any q rows)
  unfolding insert_asc
  any-insert_asc q key r [] = refl
  any-insert_asc q key r (x ∷ xs) = ground (arith, any-insert_asc q key r xs)

  pub any-order_asc :
      (q : A → Bool) (key : A → ℕ) (rows : List A) → any q (order_asc key rows) ≡ any q rows
  unfolding order_asc
  any-order_asc q key [] = refl
  any-order_asc q key (r ∷ rows) =
      ground (arith, any-insert_asc q key r (order_asc key rows), any-order_asc q key rows)

  length-insert_asc :
      (key : A → ℕ) (r : A) (rows : List A) → length (insert_asc key r rows) ≡ length rows + 1
  unfolding insert_asc
  length-insert_asc key r [] = refl
  length-insert_asc key r (x ∷ xs) = ground (arith, length-insert_asc key r xs)

  pub length-order_asc : (key : A → ℕ) (rows : List A) → length (order_asc key rows) ≡ length rows
  unfolding order_asc
  length-order_asc key [] = refl
  length-order_asc key (r ∷ rows) =
      ground (arith, length-insert_asc key r (order_asc key rows), length-order_asc key rows)

  -- A limit that is not reached leaves everything.
  pub limit-all : (n : ℕ) (rows : List A) → length rows ≤ n → limit n rows ≡ rows
  unfolding limit
  limit-all zero [] h = refl
  limit-all zero (r ∷ rows) h = absurd (omega (arith, h))
  limit-all (suc n) [] h = refl
  limit-all (suc n) (r ∷ rows) h = ap (λ xs. r ∷ xs) (limit-all n rows (omega (arith, h)))
