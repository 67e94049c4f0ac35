-- ===== src/Workspaces/Update.antt =====
-- Update of handlers/workspace.go: PATCH of some columns of a workspace. Canvas positions are not
-- modelled.
pub mod Housed
use starfire_agent_team.Prelude.{
  ℕ, String, Bool, true, false, ◌&&◌, not, Option, none, some, List, [], ◌∷◌, if◌then◌else◌,
  or_else,
}
use starfire_agent_team.Sql.{update}
use starfire_agent_team.Text.{is_empty}
use starfire_agent_team.World.{
  Workspace, World, Response, reply, error, attempt, has_id, with_workspaces,
}
use starfire_agent_team.Json.{Json, null, text, Members, lookup}
use starfire_agent_team.Workspaces.Dir.{validate_workspace_dir}

-- The six statements.
pub data Call : Type 0 where
  write_name write_role write_tier write_parent write_runtime write_dir : Call

abbrev pub set_name : ℕ → String → Workspace → Workspace
set_name now v r = record r { name = v; updated_at = now }

abbrev pub set_role : ℕ → Option String → Workspace → Workspace
set_role now v r = record r { role = v; updated_at = now }

abbrev pub set_tier : ℕ → ℕ → Workspace → Workspace
set_tier now v r = record r { tier = v; updated_at = now }

abbrev pub set_parent : ℕ → Option String → Workspace → Workspace
set_parent now v r = record r { parent_id = v; updated_at = now }

abbrev pub set_runtime : ℕ → Option String → Workspace → Workspace
set_runtime now v r = record r { runtime = v; updated_at = now }

abbrev pub set_dir : ℕ → Option String → Workspace → Workspace
set_dir now v r = record r { workspace_dir = v; updated_at = now }

-- A column that is set if the value fits it, `none` where it does not.
abbrev pub store {ℓ} :
    {A : Type ℓ} → Bool → (A → Workspace → Workspace) → String → Option A → World → World
store failed set i none w = w
store failed set i (some v) w = attempt failed (with_workspaces (update (has_id i) (set v))) w

-- The test on body["workspace_dir"]: null and "" clear the column, and only texts are looked at.
unfoldable pub is_dir_refused : (String → String) → Option Json → Bool
unfolding validate_workspace_dir
is_dir_refused clean (some (text dir)) =
    not (is_empty dir) && not (validate_workspace_dir clean dir)
is_dir_refused clean _ = false

-- What the driver stores for a JSON value: `as_column` in a column of text, where null is NULL, and
-- `as_int` in one of integers; `none` for an error.
module _ (fails : Call → Bool) (as_column : Json → Option (Option String))
    (as_int : Json → Option ℕ) where
  abbrev pub put_text :
      Call → (Option String → Workspace → Workspace) → String → Option Json → World → World
  put_text call set i none w = w
  put_text call set i (some v) w = store (fails call) set i (as_column v) w

  -- The name is NOT NULL.
  abbrev pub put_name : ℕ → String → Option Json → World → World
  put_name now i none w = w
  put_name now i (some v) w =
      store (fails write_name) (set_name now) i (or_else none (as_column v)) w

  abbrev pub put_tier : ℕ → String → Option Json → World → World
  put_tier now i none w = w
  put_tier now i (some v) w = store (fails write_tier) (set_tier now) i (as_int v) w

  unfoldable pub five_columns : ℕ → String → Members → World → World
  five_columns now i body w = put_text write_runtime (set_runtime now) i (lookup "runtime" body) (
      put_text write_parent (set_parent now) i (lookup "parent_id" body) (
        put_tier now i (lookup "tier" body) (
          put_text write_role (set_role now) i (lookup "role" body)
            (put_name now i (lookup "name" body) w))))

  abbrev pub updated : Option Json → Response
  updated none = reply 200 (("status", "updated") ∷ [])
  updated (some dir) = reply 200 (("status", "updated") ∷ ("needs_restart", "true") ∷ [])

  -- The other columns are written before the directory is looked at.
  unfoldable pub update_workspace :
      (String → String) → ℕ → String → Option Members → World → World × Response
  unfolding is_dir_refused five_columns
  update_workspace clean now i none w = (w, error 400 "bad body")
  update_workspace clean now i (some body) w =
      let dir = lookup "workspace_dir" body in
      if is_dir_refused clean dir
      then (five_columns now i body w, error 400 "bad workspace_dir")
      else (put_text write_dir (set_dir now) i dir (five_columns now i body w), updated dir)
