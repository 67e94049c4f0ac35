-- ===== src/Workspaces/Tree/Ends.antt =====
-- The recursive query ends where parents do not form a cycle.
use starfire_agent_team.Prelude.{
  ℕ, zero, suc, ◌+◌, ◌≤◌, ◌<◌, ◌≡◌, ◌≢◌, String, Bool, true, none, List, [], ◌∷◌, ◌++◌, arith,
  some_eq,
}
use starfire_agent_team.Sql.{select}
use starfire_agent_team.World.StatusColumn.{Status}
use starfire_agent_team.World.{Workspace}
use starfire_agent_team.Workspaces.Tree.{children, next_level, levels, descendants}

-- Every row of the table that has a parent is ranked above it, and no rank passes the bound.
abbrev pub IsRankedTo : (String → ℕ) → ℕ → List Workspace → Type 0
IsRankedTo rank bound [] = Unit {0}
IsRankedTo rank bound (r ∷ rows) =
    ((q : String) → some_eq r.parent_id q ≡ true → rank q < rank r.id)
    × (rank r.id ≤ bound)
    × IsRankedTo rank bound rows

abbrev AllFrom : (String → ℕ) → ℕ → List Workspace → Type 0
AllFrom rank k [] = Unit {0}
AllFrom rank k (r ∷ rows) = (k ≤ rank r.id) × AllFrom rank k rows

module _ (rank : String → ℕ) (bound : ℕ) (p : Status → Bool) where
  AllFrom-append :
      (k : ℕ) (xs ys : List Workspace)
      → AllFrom rank k xs
      → AllFrom rank k ys
      → AllFrom rank k (xs ++ ys)
  AllFrom-append k [] ys h g = g
  AllFrom-append k (x ∷ xs) ys h g = (h.0, AllFrom-append k xs ys h.1 g)

  AllFrom-zero : (rows : List Workspace) → AllFrom rank 0 rows
  AllFrom-zero [] = tt
  AllFrom-zero (r ∷ rows) = (omega arith, AllFrom-zero rows)

  children-AllFrom :
      (k : ℕ) (q : String) (rows : List Workspace)
      → IsRankedTo rank bound rows
      → k ≤ rank q
      → AllFrom rank (suc k) (children p q rows)
  unfolding children select
  children-AllFrom k q [] h le = tt
  children-AllFrom k q (r ∷ rows) h le = ground (arith, h.0 q, children-AllFrom k q rows h.2 le)

  next_level-AllFrom :
      (k : ℕ) (rows level : List Workspace)
      → IsRankedTo rank bound rows
      → AllFrom rank k level
      → AllFrom rank (suc k) (next_level p rows level)
  unfolding next_level
  next_level-AllFrom k rows [] h a = tt
  next_level-AllFrom k rows (d ∷ ds) h a =
      AllFrom-append (suc k) (children p d.id rows) (next_level p rows ds)
        (children-AllFrom k d.id rows h a.0) (next_level-AllFrom k rows ds h a.1)

  -- Ranks of the rows that a level can hold stay within the bound.
  AllTo : List Workspace → Type 0
  AllTo [] = Unit {0}
  AllTo (r ∷ rows) = (rank r.id ≤ bound) × AllTo rows

  AllTo-append : (xs ys : List Workspace) → AllTo xs → AllTo ys → AllTo (xs ++ ys)
  unfolding AllTo
  AllTo-append [] ys h g = g
  AllTo-append (x ∷ xs) ys h g = (h.0, AllTo-append xs ys h.1 g)

  children-AllTo :
      (q : String) (rows : List Workspace) → IsRankedTo rank bound rows → AllTo (children p q rows)
  unfolding children select AllTo
  children-AllTo q [] h = tt
  children-AllTo q (r ∷ rows) h = ground (arith, children-AllTo q rows h.2)

  next_level-AllTo :
      (rows level : List Workspace) → IsRankedTo rank bound rows → AllTo (next_level p rows level)
  unfolding next_level AllTo
  next_level-AllTo rows [] h = tt
  next_level-AllTo rows (d ∷ ds) h =
      AllTo-append (children p d.id rows) (next_level p rows ds) (children-AllTo d.id rows h)
        (next_level-AllTo rows ds h)

  levels_total :
      (fuel k : ℕ) (rows level : List Workspace)
      → IsRankedTo rank bound rows
      → AllFrom rank k level
      → AllTo level
      → bound < k + fuel
      → levels fuel p rows level ≢ none
  unfolding levels AllTo
  levels_total fuel k rows [] h a t lt e = cc
  levels_total zero k rows (d ∷ ds) h a t lt e = absurd (omega arith)
  levels_total (suc fuel) k rows (d ∷ ds) h a t lt e =
      levels_total fuel (suc k) rows (next_level p rows (d ∷ ds)) h
        (next_level-AllFrom k rows (d ∷ ds) h a) (next_level-AllTo rows (d ∷ ds) h) (omega arith)
        (ground arith)

-- On a table whose parents form no cycle the query returns, with any fuel above the largest rank.
pub descendants_total :
    (rank : String → ℕ) (bound : ℕ) (p : Status → Bool) (i : String) (rows : List Workspace)
    (fuel : ℕ)
    → IsRankedTo rank bound rows
    → bound < fuel
    → descendants fuel p i rows ≢ none
unfolding descendants
descendants_total rank bound p i rows fuel h lt =
    levels_total rank bound p fuel 0 rows (children p i rows) h
      (AllFrom-zero rank bound p (children p i rows)) (children-AllTo rank bound p i rows h)
      (omega arith)
