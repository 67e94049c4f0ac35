-- ===== src/World/Laws.antt =====
-- Lookups of a workspace after an update, and what keeps a tombstone.
use starfire_agent_team.Prelude.{
  Option-cases, Bool-cases, refl, ◌∙◌, inl, inr, eq_iff, true, List, [], ◌∷◌, ◌++◌, arith, ◌≡◌,
  String, Bool, false, Option, none, some,
}
use starfire_agent_team.Sql.{first, update, apply_when}
use starfire_agent_team.Sql.Laws.{map_option, first-update, first_sound}
use starfire_agent_team.World.StatusColumn.{removed, is}
use starfire_agent_team.World.Redis.{Cache}
use starfire_agent_team.World.{
  Workspace, World, has_id, workspace, with_workspaces, record_and_broadcast, attempt, with_cache,
}

-- An update that keeps the key is seen at the row with that key.
pub workspace-update :
    (p : Workspace → Bool) (f : Workspace → Workspace)
    → ((r : Workspace) → (f r).id ≡ r.id)
    → (j : String) (w : World)
    → workspace j (with_workspaces (update p f) w) ≡ map_option (apply_when p f) (workspace j w)
unfolding workspace
workspace-update p f keeps j w = first-update (has_id j) p f (λ r. cc (keeps r)) w.workspaces

abbrev pub removed_row : Option Workspace → Bool
removed_row none = false
removed_row (some r) = is r.status removed

-- The row of the workspace is there and says `removed`.
abbrev pub removed_at : String → List Workspace → Bool
removed_at i rows = removed_row (first (has_id i) rows)

abbrev pub is_removed : String → World → Bool
is_removed i w = removed_at i w.workspaces

-- An UPDATE keeps every tombstone if it keeps the key, and the status of the tombstones it touches.
pub removed_at-update :
    (p : Workspace → Bool) (f : Workspace → Workspace)
    → ((r : Workspace) → (f r).id ≡ r.id)
    → ((r : Workspace) → p r ≡ true → is r.status removed ≡ true → is (f r).status removed ≡ true)
    → (i : String) (rows : List Workspace) → removed_at i rows ≡ true
    → removed_at i (update p f rows) ≡ true
removed_at-update p f key tomb i rows h =
    rw (first-update (has_id i) p f (λ r. cc (key r)) rows) (go (first (has_id i) rows) h)
  where
    go :
        (o : Option Workspace)
        → removed_row o ≡ true
        → removed_row (map_option (apply_when p f) o) ≡ true
    go none e = cc
    go (some r) e = ground (arith, tomb r)

-- An INSERT keeps every tombstone.
pub removed_at-insert :
    (new : Workspace) (i : String) (rows : List Workspace)
    → removed_at i rows ≡ true
    → removed_at i (rows ++ new ∷ []) ≡ true
unfolding first
removed_at-insert new i [] h = cc
removed_at-insert new i (r ∷ rows) h = ground (arith, removed_at-insert new i rows)

-- The row that is found by an id has that id.
pub workspace-id : (i : String) (w : World) (r : Workspace) → workspace i w ≡ some r → r.id ≡ i
unfolding workspace
workspace-id i w r h = (eq_iff r.id i).0 (first_sound (has_id i) w.workspaces r h)

-- The row with an id after an update that keeps ids.
pub first-has_id-update :
    (i : String) (p : Workspace → Bool) (f : Workspace → Workspace)
    → ((r : Workspace) → (f r).id ≡ r.id)
    → (rows : List Workspace) (o : Option Workspace) → first (has_id i) rows ≡ o
    → first (has_id i) (update p f rows) ≡ map_option (apply_when p f) o
first-has_id-update i p f key rows o e = rw (first-update (has_id i) p f (λ r. cc (key r)) rows, e)

pub has_id_of_first :
    (i : String) (rows : List Workspace) (r : Workspace)
    → first (has_id i) rows ≡ some r
    → has_id i r ≡ true
has_id_of_first i rows r e = first_sound (has_id i) rows r e

-- A write by id to a row that is no tombstone keeps every tombstone.
pub removed_at-write :
    (wid : String) (f : Workspace → Workspace)
    → ((r : Workspace) → (f r).id ≡ r.id)
    → (i : String) (rows : List Workspace) (r : Workspace) → first (has_id wid) rows ≡ some r
    → is r.status removed ≡ false
    → removed_at i rows ≡ true
    → removed_at i (update (has_id wid) f rows) ≡ true
removed_at-write wid f key i rows r e alive h = elim (Option-cases (first (has_id i) rows)) [
  | inl none_here ↦ absurd (ground arith)
  | inr (q, found) ↦ ground (
    arith,
    first-has_id-update i (has_id wid) f key rows (some q) found,
    has_id_of_first i rows q found,
    eq_iff q.id i,
    eq_iff q.id wid,
  )
]

-- The row that an UPDATE by id touches.
pub first-update_self :
    (i : String) (f : Workspace → Workspace)
    → ((r : Workspace) → (f r).id ≡ r.id)
    → (rows : List Workspace) (r : Workspace) → first (has_id i) rows ≡ some r
    → first (has_id i) (update (has_id i) f rows) ≡ some (f r)
first-update_self i f key rows r e =
    first-has_id-update i (has_id i) f key rows (some r) e ∙ rw (has_id_of_first i rows r e) refl

-- An event and a write of Redis leave the rows alone.
pub workspaces-record_and_broadcast :
    (failed : Bool) (kind i : String) (w : World)
    → (record_and_broadcast failed kind i w).workspaces ≡ w.workspaces
unfolding record_and_broadcast
workspaces-record_and_broadcast failed kind i w = elim (Bool-cases failed) [
  | inl e ↦ rw e refl
  | inr e ↦ rw e refl
]

pub workspaces-with_cache :
    (failed : Bool) (g : Cache → Cache) (w : World)
    → (attempt failed (with_cache g) w).workspaces ≡ w.workspaces
workspaces-with_cache failed g w = elim (Bool-cases failed) [
  | inl e ↦ rw e refl
  | inr e ↦ rw e refl
]
