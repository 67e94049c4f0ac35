-- ===== src/Workspaces/Tree/Ancestors.antt =====
-- isParentPaused of handlers/workspace_restart.go: what it answers, and when it ends.
use starfire_agent_team.Prelude.{
  ◌≤◌, if◌then◌else◌, ℕ, zero, suc, ◌<◌, ◌≡◌, refl, ◌≢◌, Option, Bool, String, true, false, none,
  some, arith, Option-cases, Bool-cases, inl, inr,
}
use starfire_agent_team.World.StatusColumn.{paused, is}
use starfire_agent_team.World.{Workspace, World, workspace}
use starfire_agent_team.Workspaces.Tree.{
  Query, parent_row, ancestor_row, parent_of, is_parent_paused,
}

-- A workspace whose chain of parents on file reaches a paused one with the name.
pub data PausedAbove (w : World) (name : String) : String → Type 0 where
  parent :
      {i : String} (q : String) (r : Workspace)
      → parent_of (workspace i w) ≡ some q
      → workspace q w ≡ some r
      → is r.status paused ≡ true
      → r.name ≡ name
      → PausedAbove w name i
  further :
      {i : String} (q : String) (r : Workspace)
      → parent_of (workspace i w) ≡ some q
      → workspace q w ≡ some r
      → is r.status paused ≡ false
      → PausedAbove w name q
      → PausedAbove w name i

-- What the two queries of a step return.
abbrev parent_read : (Query → Bool) → String → World → Option String
parent_read fails i w = if fails (parent_row i) then none else parent_of (workspace i w)

abbrev ancestor_read : (Query → Bool) → String → World → Option Workspace
ancestor_read fails q w = if fails (ancestor_row q) then none else workspace q w

read_sound {ℓ} :
    {A : Type ℓ} (failed : Bool) (o : Option A) (x : A)
    → (if failed then none else o) ≡ some x
    → o ≡ some x
read_sound true o x h = absurd cc
read_sound false o x h = h

module _ (fails : Query → Bool) where
  -- One step of the walk, by what the two queries return.
  step_found :
      (fuel : ℕ) (i q : String) (w : World) (r : Workspace)
      → parent_read fails i w ≡ some q
      → ancestor_read fails q w ≡ some r
      → is_parent_paused fails (suc fuel) i w
        ≡ (if is r.status paused then some (some r.name) else is_parent_paused fails fuel q w)
  unfolding is_parent_paused
  step_found fuel i q w r e f = rw (e, f, is_parent_paused)

  step_orphan :
      (fuel : ℕ) (i q : String) (w : World)
      → parent_read fails i w ≡ some q
      → ancestor_read fails q w ≡ none
      → is_parent_paused fails (suc fuel) i w ≡ some none
  unfolding is_parent_paused
  step_orphan fuel i q w e f = rw (e, f, is_parent_paused)

  step_root :
      (fuel : ℕ) (i : String) (w : World)
      → parent_read fails i w ≡ none
      → is_parent_paused fails (suc fuel) i w ≡ some none
  unfolding is_parent_paused
  step_root fuel i w e = rw (e, is_parent_paused)

  -- If the walk names a workspace, that is a paused ancestor, with only unpaused ones on the way,
  -- whichever queries fail.
  pub is_parent_paused_sound :
      (fuel : ℕ) (i : String) (w : World) (name : String)
      → is_parent_paused fails fuel i w ≡ some (some name)
      → PausedAbove w name i
  unfolding is_parent_paused
  is_parent_paused_sound zero i w name h = cc
  is_parent_paused_sound (suc fuel) i w name h = elim (Option-cases (parent_read fails i w)) [
    | inl e ↦ cc (step_root fuel i w e)
    | inr (q, e) ↦ elim (Option-cases (ancestor_read fails q w)) [
      | inl f ↦ cc (step_orphan fuel i q w e f)
      | inr (r, f) ↦
          let p = read_sound (fails (parent_row i)) (parent_of (workspace i w)) q e in
          let a = read_sound (fails (ancestor_row q)) (workspace q w) r f in
          elim (Bool-cases (is r.status paused)) [
            | inl yes_paused ↦
                parent q r p a yes_paused (ground (arith, step_found fuel i q w r e f))
            | inr not_paused ↦
                further q r p a not_paused (
                  is_parent_paused_sound fuel q w name
                    (ground (arith, step_found fuel i q w r e f)))
          ]
    ]
  ]

-- How many steps the walk takes.
abbrev pub distance : {w : World} {name i : String} → PausedAbove w name i → ℕ
distance (parent q r e f p n) = 1
distance (further q r e f p above) = suc (distance above)

-- Where no query fails and there is a paused ancestor, the walk answers with the name of the nearest
-- one, given fuel for the way to it.
pub is_parent_paused_found :
    (fails : Query → Bool) (fuel : ℕ) (w : World) (name : String) {i : String}
    (above : PausedAbove w name i)
    → ((q : Query) → fails q ≡ false)
    → distance above ≤ fuel
    → is_parent_paused fails fuel i w ≡ some (some name)
is_parent_paused_found fails zero w name (parent q r e f p n) works h = absurd (ground arith)
is_parent_paused_found fails zero w name (further q r e f p above) works h = absurd (ground arith)
is_parent_paused_found fails (suc fuel) w name {i} (parent q r e f p n) works h =
    ground
      (arith, works (parent_row i), works (ancestor_row q), step_found fails fuel i q w r, e, f)
is_parent_paused_found fails (suc fuel) w name {i} (further q r e f p above) works h = ground (
  arith,
  works (parent_row i),
  works (ancestor_row q),
  step_found fails fuel i q w r,
  is_parent_paused_found fails fuel w name above works (omega arith),
)

-- Parents are ranked below their children: there is no cycle.
abbrev pub IsRanked : (String → ℕ) → World → Type 0
IsRanked rank w = (i q : String) → parent_of (workspace i w) ≡ some q → rank q < rank i

-- Where the parents on file form no cycle, and with fuel above the rank of the workspace, the walk
-- up to a paused ancestor ends with an answer, whichever of its queries fail.
pub is_parent_paused_total :
    (fails : Query → Bool) (rank : String → ℕ) (w : World)
    → IsRanked rank w
    → (fuel : ℕ) (i : String) → rank i < fuel
    → is_parent_paused fails fuel i w ≢ none
is_parent_paused_total fails rank w ranked zero i h e = elim h [ ]
is_parent_paused_total fails rank w ranked (suc fuel) i h e =
    elim (Option-cases (parent_read fails i w)) [
      | inl root ↦ cc (step_root fails fuel i w root)
      | inr (q, p) ↦ elim (Option-cases (ancestor_read fails q w)) [
        | inl f ↦ cc (step_orphan fails fuel i q w p f)
        | inr (r, f) ↦
            is_parent_paused_total fails rank w ranked fuel q
              (omega (
                arith,
                ranked i q (read_sound (fails (parent_row i)) (parent_of (workspace i w)) q p),
              ))
              (ground (arith, step_found fails fuel i q w r p f))
      ]
    ]

abbrev pub no_query_fails : Query → Bool
no_query_fails _ = false

-- A workspace that is its own parent and is not paused sends the walk round for ever.
pub is_parent_paused_cycle :
    (fuel : ℕ) (i : String) (w : World) (r : Workspace)
    → workspace i w ≡ some r
    → r.parent_id ≡ some i
    → is r.status paused ≡ false
    → is_parent_paused no_query_fails fuel i w ≡ none
unfolding is_parent_paused
is_parent_paused_cycle zero i w r e p s = refl
is_parent_paused_cycle (suc fuel) i w r e p s = ground (
  arith,
  step_found no_query_fails fuel i i w r (ground arith) e,
  is_parent_paused_cycle fuel i w r e p s,
)
