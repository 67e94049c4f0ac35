-- ===== src/Workspaces/Update/Housed.antt =====
-- Update keeps the rows housed, if it gives null or a text as the directory.
use starfire_agent_team.Prelude.{
  ℕ, String, Bool, true, false, ◌≡◌, refl, inl, inr, Option, none, some, or_else, Bool-cases,
}
use starfire_agent_team.Text.{is_empty}
use starfire_agent_team.World.{Workspace, World}
use starfire_agent_team.Json.{Json, null, text, Members, lookup}
use starfire_agent_team.Workspaces.Dir.{validate_workspace_dir}
use starfire_agent_team.Workspaces.Create.Housed.{is_housed, housed, housed-write, unrefused}
use starfire_agent_team.Workspaces.Update
use starfire_agent_team.Workspaces.Update.{
  store, set_dir, is_dir_refused, put_text, put_name, put_tier, five_columns, update_workspace,
  write_dir,
}

-- null, a text, or no such member.
abbrev pub is_plain : Option Json → Bool
is_plain none = true
is_plain (some null) = true
is_plain (some (text s)) = true
is_plain _ = false

housed-store {ℓ} :
    {A : Type ℓ} (clean : String → String) (failed : Bool) (set : A → Workspace → Workspace)
    (i : String) (o : Option A) (w : World)
    → ((v : A)
        → o ≡ some v
        → (r : Workspace) → is_housed clean r ≡ true
        → is_housed clean (set v r) ≡ true)
    → housed clean w ≡ true
    → housed clean (store failed set i o w) ≡ true
housed-store clean failed set i none w keeps h = h
housed-store clean failed set i (some v) w keeps h =
    housed-write clean failed (set v) i w (keeps v refl) h

abbrev pub is_plain_body : Option Members → Bool
is_plain_body none = true
is_plain_body (some body) = is_plain (lookup "workspace_dir" body)

module _ (clean : String → String) (as_column : Json → Option (Option String))
    (as_int : Json → Option ℕ) where
  housed-put_text :
      (fails : Update.Call → Bool) (call : Update.Call)
      (set : Option String → Workspace → Workspace) (i : String) (v : Option Json) (w : World)
      → ((c : Option String) (r : Workspace) → (set c r).workspace_dir ≡ r.workspace_dir)
      → housed clean w ≡ true
      → housed clean (put_text fails as_column as_int call set i v w) ≡ true
  housed-put_text fails call set i none w same h = h
  housed-put_text fails call set i (some v) w same h =
      housed-store clean (fails call) set i (as_column v) w (λ c e r k. rw (same c r) k) h

  housed-put_name :
      (fails : Update.Call → Bool) (now : ℕ) (i : String) (v : Option Json) (w : World)
      → housed clean w ≡ true
      → housed clean (put_name fails as_column as_int now i v w) ≡ true
  housed-put_name fails now i none w h = h
  housed-put_name fails now i (some v) w h =
      housed-store clean (fails Update.write_name) (Update.set_name now) i
        (or_else none (as_column v)) w (λ c e r k. k) h

  housed-put_tier :
      (fails : Update.Call → Bool) (now : ℕ) (i : String) (v : Option Json) (w : World)
      → housed clean w ≡ true
      → housed clean (put_tier fails as_column as_int now i v w) ≡ true
  housed-put_tier fails now i none w h = h
  housed-put_tier fails now i (some v) w h =
      housed-store clean (fails Update.write_tier) (Update.set_tier now) i (as_int v) w
        (λ c e r k. k) h

  housed-five_columns :
      (fails : Update.Call → Bool) (now : ℕ) (i : String) (body : Members) (w : World)
      → housed clean w ≡ true
      → housed clean (five_columns fails as_column as_int now i body w) ≡ true
  unfolding five_columns
  housed-five_columns fails now i body w h =
      housed-put_text fails Update.write_runtime (Update.set_runtime now) i (lookup "runtime" body)
        _ (λ c r. refl)
        (housed-put_text fails Update.write_parent (Update.set_parent now) i
          (lookup "parent_id" body) _ (λ c r. refl)
          (housed-put_tier fails now i (lookup "tier" body) _ (
            housed-put_text fails Update.write_role (Update.set_role now) i (lookup "role" body) _
              (λ c r. refl) (housed-put_name fails now i (lookup "name" body) w h))))

  housed-put_dir :
      (fails : Update.Call → Bool) (now : ℕ) (i : String) (dir : Option Json) (w : World)
      → as_column null ≡ some none
      → ((s : String) → as_column (text s) ≡ some (some s))
      → is_plain dir ≡ true
      → is_dir_refused clean dir ≡ false
      → housed clean w ≡ true
      → housed clean (put_text fails as_column as_int write_dir (set_dir now) i dir w) ≡ true
  unfolding is_dir_refused
  housed-put_dir fails now i none w n t plain fit h = h
  housed-put_dir fails now i (some null) w n t plain fit h =
      rw n (housed-write clean (fails write_dir) (set_dir now none) i w (λ r k. refl) h)
  housed-put_dir fails now i (some (text s)) w n t plain fit h = rw (t s) (
      housed-write clean (fails write_dir) (set_dir now (some s)) i w
        (λ r k. unrefused (is_empty s) (validate_workspace_dir clean s) fit) h)
  housed-put_dir fails now i (some v) w n t plain fit h = absurd cc

  pub housed-update_workspace :
      (fails : Update.Call → Bool) (now : ℕ) (i : String) (body : Option Members) (w : World)
      → as_column null ≡ some none
      → ((s : String) → as_column (text s) ≡ some (some s))
      → is_plain_body body ≡ true
      → housed clean w ≡ true
      → housed clean (update_workspace fails as_column as_int clean now i body w).0 ≡ true
  unfolding update_workspace
  housed-update_workspace fails now i none w n t plain h = h
  housed-update_workspace fails now i (some body) w n t plain h =
      elim (Bool-cases (is_dir_refused clean (lookup "workspace_dir" body))) [
        | inl bad ↦ rw bad (housed-five_columns fails now i body w h)
        | inr fit ↦ rw fit (
            housed-put_dir fails now i (lookup "workspace_dir" body) _ n t plain fit
              (housed-five_columns fails now i body w h))
      ]
