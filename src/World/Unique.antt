-- ===== src/World/Unique.antt =====
-- Queries on a table whose ids are unique.
use starfire_agent_team.Prelude.{
  ◌≡◌, refl, String, Bool, false, some, List, [], ◌∷◌, arith, Bool-cases, inl, inr, eq_iff, any, ap,
  ◌++◌, ◌∙◌,
}
use starfire_agent_team.Sql.{first, select, update}
use starfire_agent_team.World.{Workspace, has_id}

-- No two rows share an id.
abbrev pub PrimaryKey : List Workspace → Type 0
PrimaryKey [] = Unit {0}
PrimaryKey (r ∷ rows) = (any (has_id r.id) rows ≡ false) × PrimaryKey rows

any-select_none :
    (j : String) (p : Workspace → Bool) (rows : List Workspace)
    → any (has_id j) rows ≡ false
    → any (has_id j) (select p rows) ≡ false
unfolding select
any-select_none j p [] h = refl
any-select_none j p (r ∷ rows) h = ground (arith, any-select_none j p rows)

-- A query selects an id exactly by the row that has it.
pub any-select :
    (j : String) (p : Workspace → Bool) (rows : List Workspace) (r : Workspace)
    → PrimaryKey rows
    → first (has_id j) rows ≡ some r
    → any (has_id j) (select p rows) ≡ p r
unfolding select first
any-select j p [] r u e = cc
any-select j p (x ∷ rows) r u e = elim (Bool-cases (has_id j x)) [
  | inl here ↦ ground (
    arith,
    any-select_none j p rows,
    ap (λ k. any (has_id k) rows) ((eq_iff x.id j).0 here),
    u.0,
    here,
  )
  | inr later ↦ ground (arith, any-select j p rows r u.1, later)
]

any-update :
    (j : String) (p : Workspace → Bool) (f : Workspace → Workspace) (rows : List Workspace)
    → ((r : Workspace) → (f r).id ≡ r.id)
    → any (has_id j) (update p f rows) ≡ any (has_id j) rows
unfolding update
any-update j p f [] key = refl
any-update j p f (r ∷ rows) key = ground (arith, key r, any-update j p f rows key)

pub PrimaryKey-update :
    (p : Workspace → Bool) (f : Workspace → Workspace) (rows : List Workspace)
    → ((r : Workspace) → (f r).id ≡ r.id)
    → PrimaryKey rows
    → PrimaryKey (update p f rows)
unfolding update
PrimaryKey-update p f [] key u = u
PrimaryKey-update p f (r ∷ rows) key u = elim (Bool-cases (p r)) [
  | inl e ↦
      rw e (rw (key r) (any-update r.id p f rows key ∙ u.0), PrimaryKey-update p f rows key u.1)
  | inr e ↦ rw e (any-update r.id p f rows key ∙ u.0, PrimaryKey-update p f rows key u.1)
]

pub PrimaryKey-append :
    (rows : List Workspace) (r : Workspace)
    → any (has_id r.id) rows ≡ false
    → PrimaryKey rows
    → PrimaryKey (rows ++ r ∷ [])
PrimaryKey-append [] r free u = (refl, tt)
PrimaryKey-append (x ∷ rows) r free u = (
  apart rows u.0 (ground (arith, free, eq_iff x.id r.id, eq_iff r.id x.id)),
  PrimaryKey-append rows r (ground (arith, free)) u.1,
)
  where
    apart :
        (ys : List Workspace)
        → any (has_id x.id) ys ≡ false
        → has_id x.id r ≡ false
        → any (has_id x.id) (ys ++ r ∷ []) ≡ false
    apart [] h k = ground (arith, k)
    apart (y ∷ ys) h k = ground (arith, h, apart ys, k)
