-- ===== src/Secrets.antt =====
-- handlers/secrets.go: secrets of one workspace and global ones, which hold where the workspace has
-- none of that key. The cipher and its key are parameters, as in Crypto.
mod Uuid
pub mod Values
pub mod Stored
mod Tests
unfoldable pub use Uuid.{is_uuid}
use starfire_agent_team.Prelude.{
  ℕ, String, Bool, true, false, ◌&&◌, ◌||◌, not, Option, none, some, List, [], ◌∷◌, ◌++◌,
  if◌then◌else◌, ◌==◌, any, concat, map,
}
use starfire_agent_team.Text.{is_empty}
use starfire_agent_team.Sql.{first, select, update, delete}
use starfire_agent_team.World.{World, Response, reply, error, has_id}
use starfire_agent_team.WsAuth
use starfire_agent_team.WsAuth.{has_any_live_token}
use starfire_agent_team.Registry.Gate.{bearer_check}
use starfire_agent_team.Crypto.{Bytes, current_encryption_version, encrypt, decrypt_versioned}

-- A row of `global_secrets`.
pub record Secret : Type 0 where
  pub key : String
  pub encrypted_value : Bytes
  pub encryption_version : ℕ
  pub created_at : ℕ
  pub updated_at : ℕ

-- A row of `workspace_secrets`.
pub record Owned : Type 0 where
  pub workspace_id : String
  pub secret : Secret

pub record Vault : Type 0 where
  pub secrets : List Owned
  pub globals : List Secret

pub record SetBody : Type 0 where
  pub key : String
  pub value : Bytes

-- The statements of this file that can fail.
pub data Call : Type 0 where
  own_rows global_rows upsert delete_row : Call

-- An entry of a list; the value is not shown.
pub record Entry : Type 0 where
  pub key : String
  pub scope : String
  pub created_at : ℕ
  pub updated_at : ℕ

abbrev entry_of : String → Secret → Entry
entry_of scope s = record {
  key = s.key;
  scope = scope;
  created_at = s.created_at;
  updated_at = s.updated_at;
}

abbrev pub owned_by : String → Owned → Bool
owned_by i r = r.workspace_id == i

-- SELECT … FROM workspace_secrets WHERE workspace_id = $1
unfoldable pub secrets_of : String → Vault → List Secret
secrets_of i v = map (λ r. r.secret) (select (owned_by i) v.secrets)

abbrev pub key_is : String → Secret → Bool
key_is k s = s.key == k

-- `none` for an answer other than 200; `by_key` is ORDER BY key, with the collation of the server.
unfoldable pub list_secrets :
    (Call → Bool) → (List Secret → List Secret) → String → Vault → Option (List Entry)
unfolding secrets_of
list_secrets fails by_key i v =
    if not (is_uuid i) || fails own_rows
    then none
    else some (
        map (entry_of "workspace") (by_key (secrets_of i v))
        ++ (if fails global_rows
            then []
            else map (entry_of "global")
                (select (λ g. not (any (key_is g.key) (secrets_of i v))) (by_key v.globals))))

-- The map `out`, and the keys that could not be decrypted.
pub record Bundle : Type 0 where
  pub out : String → Option Bytes
  pub failed_keys : List String

pub data Served : Type 0 where
  bundle : (String → Option Bytes) → Served
  broken : List String → Served
  refusal : Response → Served

abbrev pub put : String → Bytes → (String → Option Bytes) → String → Option Bytes
put k value out j = if j == k then some value else out j

abbrev pub keep : String → Secret → Option Bytes → Bundle → Bundle
keep scope s none b = record b { failed_keys = b.failed_keys ++ concat scope s.key ∷ [] }
keep scope s (some p) b = record b { out = put s.key p b.out }

abbrev pub served : Bundle → Served
served b = elim b.failed_keys [ [] ↦ bundle b.out | _ ∷ _ ↦ broken b.failed_keys ]

module _ (sha256 : String → String) (auth : WsAuth.Call → Bool) where
  -- Closed where the check for a token fails.
  unfoldable pub values_gate : ℕ → String → String → World → World × Option Response
  unfolding bearer_check
  values_gate now header i w = elim (has_any_live_token auth i w) [
    | none ↦ (w, some (error 500 "auth check failed"))
    | some false ↦ (w, none)
    | some true ↦
        bearer_check sha256 auth "missing workspace auth token" "invalid workspace auth token" now
          header i w
  ]

module _ (open_ : Bytes → Bytes → Bytes → Option Bytes) (key : Bytes) where
  abbrev pub plaintext : Secret → Option Bytes
  plaintext s = decrypt_versioned open_ key s.encrypted_value s.encryption_version

  -- One turn of the loops of Values.
  abbrev pub add : String → Secret → Bundle → Bundle
  add scope s b = keep scope s (plaintext s) b

  unfoldable pub add_all : String → List Secret → Bundle → Bundle
  add_all scope [] b = b
  add_all scope (s ∷ rows) b = add_all scope rows (add scope s b)

  -- Globals first, then the workspace's own.
  unfoldable pub merge : List Secret → List Secret → Bundle
  unfolding add_all
  merge own globals =
      add_all "workspace:" own
        (add_all "global:" globals (record { out = λ k. none; failed_keys = [] }))

  unfoldable pub merged : (Call → Bool) → String → Vault → Bundle
  unfolding merge secrets_of
  merged fails i v =
      merge (if fails own_rows then [] else secrets_of i v)
        (if fails global_rows then [] else v.globals)

  abbrev pub values_after :
      (Call → Bool) → String → Vault → World × Option Response → World × Served
  values_after fails i v (w, some r) = (w, refusal r)
  values_after fails i v (w, none) = (w, served (merged fails i v))

  module _ (sha256 : String → String) (auth : WsAuth.Call → Bool) where
    unfoldable pub values : (Call → Bool) → ℕ → String → String → Vault → World → World × Served
    unfolding values_gate merged
    values fails now header i v w =
        if not (is_uuid i)
        then (w, refusal (error 400 "invalid workspace ID"))
        else values_after fails i v (values_gate sha256 auth now header i w)

  -- The answer and the source of the model.
  unfoldable pub get_model : (Call → Bool) → String → Vault → Option (Bytes × String)
  unfolding secrets_of
  get_model fails i v =
      if fails own_rows then none else elim (first (key_is "MODEL_PROVIDER") (secrets_of i v)) [
        | none ↦ some ([], "default")
        | some s ↦ elim (plaintext s) [ none ↦ none | some p ↦ some (p, "workspace_secrets") ]
      ]

abbrev pub sealed : ℕ → String → Bytes → ℕ → Secret
sealed now k value version = record {
  key = k;
  encrypted_value = value;
  encryption_version = version;
  created_at = now;
  updated_at = now;
}

abbrev pub resealed : ℕ → Bytes → ℕ → Secret → Secret
resealed now value version s = record s {
  encrypted_value = value;
  encryption_version = version;
  updated_at = now;
}

abbrev pub owned_key : String → String → Owned → Bool
owned_key i k r = r.workspace_id == i && r.secret.key == k

-- INSERT … ON CONFLICT (workspace_id, key) DO UPDATE
unfoldable pub upsert_secret : ℕ → String → String → Bytes → ℕ → List Owned → List Owned
upsert_secret now i k value version rows =
    if any (owned_key i k) rows
    then update (owned_key i k) (λ r. record r { secret = resealed now value version r.secret })
        rows
    else rows ++ record { workspace_id = i; secret = sealed now k value version } ∷ []

unfoldable pub upsert_global : ℕ → String → Bytes → ℕ → List Secret → List Secret
upsert_global now k value version rows =
    if any (key_is k) rows
    then update (key_is k) (resealed now value version) rows
    else rows ++ sealed now k value version ∷ []

module _ (seal : Bytes → Bytes → Bytes → Bytes) (key : Bytes) (fails : Call → Bool) where
  -- The Boolean says whether `go h.restartFunc(…)` was called.
  unfoldable pub set_secret :
      Bool → ℕ → Option Bytes → String → Option SetBody → World → Vault → Vault × Response × Bool
  unfolding upsert_secret
  set_secret restarts now random i body w v =
      if not (is_uuid i) then (v, error 400 "invalid workspace ID", false) else elim body [
        | none ↦ (v, error 400 "bad body", false)
        | some b ↦ elim (encrypt seal random key b.value) [
          | none ↦ (v, error 500 "failed to encrypt secret", false)
          | some value ↦
              if fails upsert || not (any (has_id i) w.workspaces)
              then (v, error 500 "failed to save secret", false)
              else (
                record v {
                  secrets =
                      upsert_secret now i b.key value (current_encryption_version key) v.secrets;
                },
                reply 200 (("status", "saved") ∷ ("key", b.key) ∷ []),
                restarts,
              )
        ]
      ]

  unfoldable pub set_global : ℕ → Option Bytes → Option SetBody → Vault → Vault × Response
  unfolding upsert_global
  set_global now random none v = (v, error 400 "bad body")
  set_global now random (some b) v = elim (encrypt seal random key b.value) [
    | none ↦ (v, error 500 "failed to encrypt")
    | some value ↦ if fails upsert then (v, error 500 "failed to save") else (
      record v {
        globals = upsert_global now b.key value (current_encryption_version key) v.globals;
      },
      reply 200 (("status", "saved") ∷ ("key", b.key) ∷ ("scope", "global") ∷ []),
    )
  ]

module _ (fails : Call → Bool) where
  unfoldable pub delete_secret : Bool → String → String → Vault → Vault × Response × Bool
  delete_secret restarts i k v =
      if not (is_uuid i)
      then (v, error 400 "invalid workspace ID", false)
      else if fails delete_row
      then (v, error 500 "failed to delete secret", false)
      else if not (any (owned_key i k) v.secrets)
      then (v, error 404 "secret not found", false)
      else (
        record v { secrets = delete (owned_key i k) v.secrets },
        reply 200 (("status", "deleted") ∷ ("key", k) ∷ []),
        restarts,
      )

  unfoldable pub delete_global : String → Vault → Vault × Response
  delete_global k v =
      if fails delete_row
      then (v, error 500 "failed to delete")
      else if not (any (key_is k) v.globals)
      then (v, error 404 "secret not found")
      else (
        record v { globals = delete (key_is k) v.globals },
        reply 200 (("status", "deleted") ∷ ("key", k) ∷ ("scope", "global") ∷ []),
      )

  -- `none` for the answer 500
  unfoldable pub list_global : (List Secret → List Secret) → Vault → Option (List Entry)
  list_global by_key v =
      if fails global_rows then none else some (map (entry_of "global") (by_key v.globals))
