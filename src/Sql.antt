-- ===== src/Sql.antt =====
-- The statements that the platform sends to Postgres, over a table as the list of its rows in the
-- order in which the server returns them.
pub mod Laws
pub mod Order
use starfire_agent_team.Prelude.{
  ℕ, suc, ◌+◌, Bool, Option, none, some, List, [], ◌∷◌, if◌then◌else◌,
}

module _ {ℓ} {A : Type ℓ} where
  -- SELECT … WHERE p
  unfoldable pub select : (A → Bool) → List A → List A
  select p [] = []
  select p (r ∷ rows) = let rest = select p rows in if p r then r ∷ rest else rest

  -- QueryRow(SELECT … WHERE p): the first row, `none` for sql.ErrNoRows
  unfoldable pub first : (A → Bool) → List A → Option A
  first p [] = none
  first p (r ∷ rows) = let rest = first p rows in if p r then some r else rest

  abbrev pub apply_when : (A → Bool) → (A → A) → A → A
  apply_when p f r = if p r then f r else r

  -- UPDATE … SET f WHERE p
  unfoldable pub update : (A → Bool) → (A → A) → List A → List A
  update p f [] = []
  update p f (r ∷ rows) = apply_when p f r ∷ update p f rows

  -- DELETE … WHERE p
  unfoldable pub delete : (A → Bool) → List A → List A
  delete p [] = []
  delete p (r ∷ rows) = let rest = delete p rows in if p r then rest else r ∷ rest

  -- SELECT COUNT(*) … WHERE p, and RowsAffected of an UPDATE or DELETE
  unfoldable pub count : (A → Bool) → List A → ℕ
  count p [] = 0
  count p (r ∷ rows) = let rest = count p rows in if p r then rest + 1 else rest
