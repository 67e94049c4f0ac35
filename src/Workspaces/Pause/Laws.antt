-- ===== src/Workspaces/Pause/Laws.antt =====
-- A pause reaches the whole subtree.
use starfire_agent_team.Prelude.{
  is_some, ◌<◌, [], ℕ, String, Bool, true, false, ◌≡◌, refl, Option, none, some, List, [], ◌∷◌,
  arith, Option-cases, inl, inr, ◌==◌, ◌||◌, eq_iff, ◌⊎◌,
}
use starfire_agent_team.Sql.{first}
use starfire_agent_team.World.StatusColumn.{paused, is}
use starfire_agent_team.World.{
  reply, Workspace, World, Response, has_id, workspace, record_and_broadcast,
}
use starfire_agent_team.World.Laws.{first-has_id-update, has_id_of_first}
use starfire_agent_team.Workspaces.Tree.{descendants}
use starfire_agent_team.Workspaces.Tree.Laws.{Below, has, descendants_complete}
use starfire_agent_team.Workspaces.Tree.Ends.{IsRankedTo, descendants_total}
use starfire_agent_team.Workspaces.Pause.{Call, pausable, paused_row, pause_one, pause_all, pause}

abbrev is_paused_row : Option Workspace → Bool
is_paused_row none = false
is_paused_row (some r) = is r.status paused

-- The workspace is on file, and paused.
abbrev pub is_paused_at : String → World → Bool
is_paused_at j w = is_paused_row (first (has_id j) w.workspaces)

abbrev on_file : String → World → Bool
on_file j w = is_some (first (has_id j) w.workspaces)

abbrev pub no_failure : Call → Bool
no_failure _ = false

module _ (docker : Bool) (now : ℕ) where
  -- A pause of a row keeps every row on file.
  row-pause_one :
      (i j : String) (w : World) (o : Option Workspace)
      → first (has_id j) w.workspaces ≡ o
      → is_some o ≡ true
      → (on_file j (pause_one no_failure docker now i w) ≡ true)
        × (is_paused_at j (pause_one no_failure docker now i w) ≡ (i == j || is_paused_row o))
  unfolding pause_one record_and_broadcast paused_row
  row-pause_one i j w none e on = absurd cc
  row-pause_one i j w (some r) e on =
      let found =
        first-has_id-update j (has_id i) (paused_row now) (λ q. refl) w.workspaces (some r) e in
      let same = has_id_of_first j w.workspaces r e in
      (ground (arith, found), ground (arith, found, same, eq_iff r.id j, eq_iff r.id i, eq_iff i j))

  row-pause_all :
      (j : String) (rows : List Workspace) (w : World)
      → on_file j w ≡ true
      → is_paused_at j (pause_all no_failure docker now rows w) ≡ (has j rows || is_paused_at j w)
  unfolding pause_all
  row-pause_all j [] w on = refl
  row-pause_all j (r ∷ rows) w on =
      let (kept, row) = row-pause_one r.id j w (first (has_id j) w.workspaces) refl on in
      ground (arith, row-pause_all j rows (pause_one no_failure docker now r.id w) kept, row)

paused_by_pause :
    (docker : Bool) (fuel now : ℕ) (i j : String) (w v : World) (answer : Response)
    → pause no_failure docker fuel now i w ≡ some (v, answer)
    → answer.code ≡ 200
    → (j ≡ i) ⊎ Below pausable w.workspaces i j
    → on_file j w ≡ true
    → is_paused_at j v ≡ true
unfolding pause workspace
paused_by_pause docker fuel now i j w v answer e code below on =
    elim (Option-cases (first (has_id i) w.workspaces)) [
      | inl missing ↦ absurd (ground (arith, missing))
      | inr (r, found) ↦ go r found (descendants fuel pausable i w.workspaces) refl below
    ]
  where
    go :
        (r : Workspace)
        → first (has_id i) w.workspaces ≡ some r
        → (o : Option (List Workspace)) → descendants fuel pausable i w.workspaces ≡ o
        → (j ≡ i) ⊎ Below pausable w.workspaces i j
        → is_paused_at j v ≡ true
    go r found none d b = absurd (ground (arith, found, d))
    go r found (some rows) d (inl same) = ground (
      arith,
      found,
      d,
      row-pause_all docker now j (r ∷ rows) w on,
      eq_iff r.id i,
      eq_iff r.id j,
      has_id_of_first i w.workspaces r found,
    )
    go r found (some rows) d (inr b) = ground (
      arith,
      found,
      d,
      row-pause_all docker now j (r ∷ rows) w on,
      descendants_complete fuel pausable w.workspaces i rows d b,
    )

pause_total :
    (docker : Bool) (fuel now : ℕ) (i : String) (w : World) (r : Workspace) (rank : String → ℕ)
    (bound : ℕ)
    → IsRankedTo rank bound w.workspaces
    → bound < fuel
    → workspace i w ≡ some r
    → pausable r.status ≡ true
    → (v : World) × (answer : Response) × (pause no_failure docker fuel now i w ≡ some (v, answer))
      × (answer.code ≡ 200)
unfolding pause workspace
pause_total docker fuel now i w r rank bound acyclic enough found able =
    elim (Option-cases (descendants fuel pausable i w.workspaces)) [
      | inl endless ↦
          absurd (descendants_total rank bound pausable i w.workspaces fuel acyclic enough endless)
      | inr (rows, e) ↦ (
        pause_all no_failure docker now (r ∷ rows) w,
        reply 200 (("status", "paused") ∷ []),
        ground (arith, found, able, e),
        refl,
      )
    ]

-- On a table whose parents form no cycle, and with fuel above the largest rank, a pause of a workspace
-- that is neither removed nor paused, and of which no statement fails, returns, and then the workspace
-- is paused, and so is every one on file that is below it by rows which are neither removed nor paused.
pub pause_subtree :
    (docker : Bool) (fuel now : ℕ) (i j : String) (w : World) (r q : Workspace) (rank : String → ℕ)
    (bound : ℕ)
    → IsRankedTo rank bound w.workspaces
    → bound < fuel
    → workspace i w ≡ some r
    → pausable r.status ≡ true
    → (j ≡ i) ⊎ Below pausable w.workspaces i j
    → workspace j w ≡ some q
    → (out : World × Response) × (pause no_failure docker fuel now i w ≡ some out)
      × (is_paused_at j out.0 ≡ true)
unfolding workspace
pause_subtree docker fuel now i j w r q rank bound acyclic enough found able below on =
    let (v, answer, returned, fine) =
      pause_total docker fuel now i w r rank bound acyclic enough found able in
    (
      (v, answer),
      returned,
      paused_by_pause docker fuel now i j w v answer returned fine below (rw on refl),
    )
