-- ===== src/Workspaces/Tree/Laws.antt =====
-- The recursive query finds every descendant, and ends where parents do not form a cycle.
use starfire_agent_team.Prelude.{
  ℕ, zero, suc, ◌≡◌, refl, String, Bool, true, ◌||◌, Option, none, some, List, [], ◌∷◌, ◌++◌, arith,
  any, eq_iff, Bool-cases, inl, inr, ap,
}
use starfire_agent_team.World.StatusColumn.{Status}
use starfire_agent_team.World.{Workspace, has_id}
use starfire_agent_team.Workspaces.Tree.{children, next_level, levels, prepend, descendants}

-- The list has a row with the id.
abbrev pub has : String → List Workspace → Bool
has i rows = any (has_id i) rows

-- A path down the hierarchy through rows of the table that pass the status test.
pub data Below (p : Status → Bool) (rows : List Workspace) (i : String) : String → Type 0 where
  child : (j : String) → has j (children p i rows) ≡ true → Below p rows i j
  deeper : (q j : String) → Below p rows i q → has j (children p q rows) ≡ true → Below p rows i j

pub has-append : (i : String) (xs ys : List Workspace) → has i (xs ++ ys) ≡ (has i xs || has i ys)
has-append i [] ys = refl
has-append i (x ∷ xs) ys = ground (arith, has-append i xs ys)

has-next_level :
    (p : Status → Bool) (rows : List Workspace) (q j : String) (level : List Workspace)
    → has q level ≡ true
    → has j (children p q rows) ≡ true
    → has j (next_level p rows level) ≡ true
unfolding next_level
has-next_level p rows q j [] h c = cc
has-next_level p rows q j (d ∷ ds) h c = elim (Bool-cases (has_id q d)) [
  | inl e ↦ ground (
    arith,
    has-append j (children p d.id rows) (next_level p rows ds),
    ap (λ k. has j (children p k rows)) ((eq_iff d.id q).0 e),
  )
  | inr e ↦ ground (
    arith,
    has-append j (children p d.id rows) (next_level p rows ds),
    has-next_level p rows q j ds,
  )
]

split_found :
    (j : String) (d : Workspace) (ds below found : List Workspace)
    → prepend (d ∷ ds) (some below) ≡ some found
    → has j found ≡ (has j (d ∷ ds) || has j below)
split_found j d ds below found e = ground (arith, has-append j ds below)

has-level :
    (fuel : ℕ) (p : Status → Bool) (rows level : List Workspace) (found : List Workspace)
    (j : String)
    → levels fuel p rows level ≡ some found
    → has j level ≡ true
    → has j found ≡ true
unfolding levels
has-level fuel p rows [] found j e h = cc
has-level zero p rows (d ∷ ds) found j e h = cc
has-level (suc fuel) p rows (d ∷ ds) found j e h =
    go (levels fuel p rows (next_level p rows (d ∷ ds))) e
  where
    go : (o : Option (List Workspace)) → prepend (d ∷ ds) o ≡ some found → has j found ≡ true
    go none e = cc
    go (some below) e = rw (split_found j d ds below found e, h)

closed :
    (fuel : ℕ) (p : Status → Bool) (rows level : List Workspace) (found : List Workspace)
    (q j : String)
    → levels fuel p rows level ≡ some found
    → has q found ≡ true
    → has j (children p q rows) ≡ true
    → has j found ≡ true
unfolding levels
closed fuel p rows [] found q j e h c = ground arith
closed zero p rows (d ∷ ds) found q j e h c = cc
closed (suc fuel) p rows (d ∷ ds) found q j e h c =
    go (levels fuel p rows (next_level p rows (d ∷ ds))) refl e
      (λ below. closed fuel p rows (next_level p rows (d ∷ ds)) below q j)
  where
    go :
        (o : Option (List Workspace))
        → levels fuel p rows (next_level p rows (d ∷ ds)) ≡ o
        → prepend (d ∷ ds) o ≡ some found
        → ((below : List Workspace)
            → levels fuel p rows (next_level p rows (d ∷ ds)) ≡ some below
            → has q below ≡ true
            → has j (children p q rows) ≡ true
            → has j below ≡ true)
        → has j found ≡ true
    go none eq e ih = cc
    go (some below) eq e ih = elim (Bool-cases (has q (d ∷ ds))) [
      | inl here ↦ ground (
        arith,
        split_found j d ds below found e,
        has-level fuel p rows (next_level p rows (d ∷ ds)) below j eq
            (has-next_level p rows q j (d ∷ ds) here c),
      )
      | inr later ↦
          ground
            (arith, split_found q d ds below found e, split_found j d ds below found e, ih below eq)
    ]

-- Whatever the query returns holds every workspace below the given one, at any depth.
pub descendants_complete :
    (fuel : ℕ) (p : Status → Bool) (rows : List Workspace) (i : String) (found : List Workspace)
    {j : String}
    → descendants fuel p i rows ≡ some found
    → Below p rows i j
    → has j found ≡ true
unfolding descendants
descendants_complete fuel p rows i found e (child j c) =
    has-level fuel p rows (children p i rows) found j e c
descendants_complete fuel p rows i found e (deeper q j b c) =
    closed fuel p rows (children p i rows) found q j e
      (descendants_complete fuel p rows i found e b) c
