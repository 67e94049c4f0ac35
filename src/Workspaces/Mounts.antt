-- ===== src/Workspaces/Mounts.antt =====
-- Which directories of the host a container mounts.
use starfire_agent_team.Prelude.{
  ℕ, String, Bool, true, ◌≡◌, refl, ◌⊎◌, inl, inr, Option, none, some, List, [], ◌∷◌, all, arith,
  Bool-cases, Option-cases,
}
use starfire_agent_team.Text.{is_empty}
use starfire_agent_team.Sql.Laws.{first_of_all}
use starfire_agent_team.World.{Workspace, World, workspace, has_id}
use starfire_agent_team.World.Redis.{cache_url, cache_internal_url}
use starfire_agent_team.Discovery.{internal_url}
use starfire_agent_team.Json.{Json, null, text, Members}
use starfire_agent_team.Crypto.{Bytes}
use starfire_agent_team.Secrets
use starfire_agent_team.Secrets.{Vault}
use starfire_agent_team.Workspaces.Dir.{validate_workspace_dir}
use starfire_agent_team.Workspaces.Create
use starfire_agent_team.Workspaces.Create.{CreatePayload, Launch, create, first_filled}
use starfire_agent_team.Workspaces.Create.Housed.{
  is_dir_ok, is_housed, housed, housed-write, housed-announced, housed-cached, housed-create,
}
use starfire_agent_team.Workspaces.Update
use starfire_agent_team.Workspaces.Update.{
  store, set_dir, is_dir_refused, put_text, put_name, put_tier, five_columns, update_workspace,
  write_dir,
}
use starfire_agent_team.Workspaces.Update.Housed.{is_plain_body, housed-update_workspace}
use starfire_agent_team.Workspaces.Provision
use starfire_agent_team.Workspaces.Provision.{
  WorkspaceConfig, provisioned, stored_dir, readable, build_provisioner_config, started,
  undecryptable, provision_workspace,
}

picked :
    (clean : String → String) (own stored host_dir : String)
    → is_dir_ok clean own ≡ true
    → is_dir_ok clean stored ≡ true
    → let path = first_filled (first_filled own stored) host_dir in
      (path ≡ host_dir) ⊎ (validate_workspace_dir clean path ≡ true)
picked clean own stored host_dir h k = elim (Bool-cases (is_empty own)) [
  | inr e ↦ inr (rw (e, e) (rw e at h))
  | inl e ↦ elim (Bool-cases (is_empty stored)) [
    | inr f ↦ inr (rw (e, f) (rw f at k))
    | inl f ↦ inl (rw (e, f) refl)
  ]
]

module _ (clean : String → String) (fails : Provision.Call → Bool) where
  housed-undecryptable :
      (now : ℕ) (i : String) (w : World)
      → housed clean w ≡ true
      → housed clean (undecryptable fails now i w) ≡ true
  unfolding undecryptable
  housed-undecryptable now i w h =
      housed-write clean (fails Provision.write_failed) (Provision.failed_row fails now) i _
        (λ r k. k)
        (housed-announced clean (fails Provision.broadcast) "WORKSPACE_PROVISION_FAILED" i w h)

  housed-started :
      (now : ℕ) (i : String) (o : String ⊎ String) (w : World)
      → housed clean w ≡ true
      → housed clean (started fails now i o w) ≡ true
  unfolding started
  housed-started now i (inl e) w h =
      housed-announced clean (fails Provision.broadcast) "WORKSPACE_PROVISION_FAILED" i _ (
        housed-write clean (fails Provision.write_failed) (Provision.failed_with fails now e) i w
          (λ r k. k) h)
  housed-started now i (inr u) w h = elim (Bool-cases (is_empty u)) [
    | inl bare ↦ rw bare h
    | inr named ↦ rw named (
        housed-cached clean (fails Provision.cache_internal)
          (cache_internal_url now i (internal_url i)) _
          (housed-cached clean (fails Provision.cache) (cache_url now i u) _ (
            housed-write clean (fails Provision.write_url) (Provision.with_url fails u) i w
              (λ r k. k) h)))
  ]

  module _ (open_ : Bytes → Bytes → Bytes → Option Bytes) (key : Bytes)
      (start : WorkspaceConfig → String ⊎ String) where
    housed-provisioned :
        (now : ℕ) (host_dir i : String) (l : Launch) (o : Option (String → Option Bytes))
        (w : World)
        → housed clean w ≡ true
        → housed clean (provisioned fails open_ key start now host_dir i l o w) ≡ true
    housed-provisioned now host_dir i l none w h = housed-undecryptable now i w h
    housed-provisioned now host_dir i l (some env) w h = housed-started now i _ w h

  -- The directory that is mounted: the host's default, or one that passes the check.
  pub mounted :
      (host_dir i : String) (l : Launch) (env : String → Option Bytes) (namespace : String)
      (w : World)
      → is_dir_ok clean l.payload.workspace_dir ≡ true
      → housed clean w ≡ true
      → let c = build_provisioner_config fails host_dir i l env namespace w in
        (c.workspace_path ≡ host_dir) ⊎ (validate_workspace_dir clean c.workspace_path ≡ true)
  unfolding build_provisioner_config workspace
  mounted host_dir i l env namespace w ok h =
      picked clean l.payload.workspace_dir (stored_dir (readable fails Provision.mount_row i w))
        host_dir ok (stored_ok (readable fails Provision.mount_row i w) found)
    where
      found :
          (r : Workspace)
          → readable fails Provision.mount_row i w ≡ some r
          → is_housed clean r ≡ true
      found r e = elim (Bool-cases (fails Provision.mount_row)) [
        | inl lost ↦ absurd (missing (rw lost at e))
        | inr read ↦ first_of_all (has_id i) (is_housed clean) w.workspaces r h (rw read at e)
      ]
        where
          missing : none ≡ some r → ⊥
          missing k = cc

      stored_ok :
          (o : Option Workspace)
          → ((r : Workspace) → o ≡ some r → is_housed clean r ≡ true)
          → is_dir_ok clean (stored_dir o) ≡ true
      stored_ok none k = refl
      stored_ok (some r) k = elim (Option-cases r.workspace_dir) [
        | inl e ↦ rw e refl
        | inr (d, e) ↦ rw e (rw e at (k r refl))
      ]

-- The operations that write a workspace's directory, and the start of its container.
pub data Request : Type 0 where
  creation :
      (Create.Call → Bool)
      → Bool
      → (String → Option String)
      → ℕ
      → String
      → Option CreatePayload
      → Request
  patch : (Update.Call → Bool) → ℕ → String → Option Members → Request
  provisioning :
      (Provision.Call → Bool)
      → (Secrets.Call → Bool)
      → (Bytes → Bytes → Bytes → Option Bytes)
      → Bytes
      → (WorkspaceConfig → String ⊎ String)
      → ℕ
      → String
      → String
      → Launch
      → Vault
      → Request

-- A patch gives null or a text as the directory, if any.
abbrev pub is_plain_request : Request → Bool
is_plain_request (patch fails now i body) = is_plain_body body
is_plain_request _ = true

module _ (clean : String → String) (as_column : Json → Option (Option String))
    (as_int : Json → Option ℕ) where
  step : Request → World → World
  step (creation fails has_provisioner config_of now i body) w =
      (create fails has_provisioner config_of clean now i body w).0
  step (patch fails now i body) w = (update_workspace fails as_column as_int clean now i body w).0
  step (provisioning fails secrets_fail open_ key start now host_dir i l v) w =
      provision_workspace fails open_ key start secrets_fail now host_dir i l v w

  pub run : List Request → World → World
  unfolding step
  run [] w = w
  run (q ∷ requests) w = run requests (step q w)

  module _ (nulls : as_column null ≡ some none)
      (texts : (s : String) → as_column (text s) ≡ some (some s)) where
    housed-step :
        (q : Request) (w : World)
        → is_plain_request q ≡ true
        → housed clean w ≡ true
        → housed clean (step q w) ≡ true
    unfolding step provision_workspace
    housed-step (creation fails has_provisioner config_of now i body) w plain h =
        housed-create clean fails has_provisioner config_of now i body w h
    housed-step (patch fails now i body) w plain h =
        housed-update_workspace clean as_column as_int fails now i body w nulls texts plain h
    housed-step (provisioning fails secrets_fail open_ key start now host_dir i l v) w plain h =
        housed-provisioned clean fails open_ key start now host_dir i l _ w h

    housed-run :
        (requests : List Request) (w : World)
        → all is_plain_request requests ≡ true
        → housed clean w ≡ true
        → housed clean (run requests w) ≡ true
    unfolding run
    housed-run [] w plain h = h
    housed-run (q ∷ requests) w plain h =
        housed-run requests (step q w) (ground (arith, plain))
          (housed-step q w (ground (arith, plain)) h)

    -- Every directory on file is empty or passes the check at first; then requests create
    -- workspaces, patch them and start their containers, in any order and whichever calls fail. If
    -- every patch gives null or a text as the directory, and the payload of a start has none or one
    -- that passes the check, then a container that is started after them mounts WORKSPACE_DIR or a
    -- directory that passes the check. Of the driver: it stores null as NULL and a text as it is.
    pub run-mounts :
        (requests : List Request) (w : World) (fails : Provision.Call → Bool) (host_dir i : String)
        (l : Launch) (env : String → Option Bytes) (namespace : String)
        → all is_plain_request requests ≡ true
        → housed clean w ≡ true
        → is_dir_ok clean l.payload.workspace_dir ≡ true
        → let c = build_provisioner_config fails host_dir i l env namespace (run requests w) in
          (c.workspace_path ≡ host_dir) ⊎ (validate_workspace_dir clean c.workspace_path ≡ true)
    run-mounts requests w fails host_dir i l env namespace plain h ok =
        mounted clean fails host_dir i l env namespace (run requests w) ok
          (housed-run requests w plain h)
