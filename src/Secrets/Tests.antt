-- ===== src/Secrets/Tests.antt =====
-- Secrets of a workspace, in plain, with a cipher that puts the key in front.
use starfire_agent_team.Prelude.{
  ◌≡◌, refl, ◌⊎◌, String, Bool, true, false, Option, none, some, [], ◌∷◌,
}
use starfire_agent_team.World.{World}
use starfire_agent_team.World.StatusColumn.{online}
use starfire_agent_team.Samples.{sha, row, world_of}
use starfire_agent_team.WsAuth
use starfire_agent_team.WsAuth.{has_any_live_token, validate_token, bearer_token_from_header}
use starfire_agent_team.Crypto.{Bytes}
use starfire_agent_team.Secrets.{
  is_uuid, Secret, Vault, SetBody, Call, global_rows, bundle, set_secret, values, merged,
}
use starfire_agent_team.Secrets.Values.{values_guarded, values_merged}

abbrev no_failure : Call → Bool
no_failure _ = false

abbrev agent : String
agent = "0a1b2c3d-0000-4000-8000-00000000cafe"

abbrev agents : World
agents = world_of (row agent online none ∷ [])

abbrev api_key : Secret
api_key = record {
  key = "API_KEY";
  encrypted_value = 7 ∷ [];
  encryption_version = 0;
  created_at = 1;
  updated_at = 1;
}

abbrev vault : Vault
vault = record { secrets = []; globals = api_key ∷ [] }

abbrev no_cipher : Bytes → Bytes → Bytes → Option Bytes
no_cipher k n p = some p

abbrev out_of_vault : String → Option Bytes
out_of_vault = (merged no_cipher [] no_failure agent vault).out

values_guarded_example :
    (is_uuid agent ≡ true)
    × ((has_any_live_token WsAuth.healthy agent agents ≡ some false)
        ⊎ ((validate_token sha WsAuth.healthy 9 agent (bearer_token_from_header "") agents).1
            ≡ true))
unfolding values is_uuid has_any_live_token starfire_agent_team.Sql.count
    starfire_agent_team.Sql.select starfire_agent_team.Crypto.decrypt_versioned
values_guarded_example =
    values_guarded no_cipher [] sha WsAuth.healthy no_failure 9 "" agent vault agents out_of_vault
      refl

values_merged_example : out_of_vault "API_KEY" ≡ some (7 ∷ [])
unfolding values is_uuid has_any_live_token starfire_agent_team.Sql.count
    starfire_agent_team.Sql.select starfire_agent_team.Crypto.decrypt_versioned
values_merged_example =
    values_merged no_cipher [] sha WsAuth.healthy no_failure 9 "" agent "API_KEY" vault agents
      out_of_vault refl refl refl

abbrev new_key : SetBody
new_key = record { key = "API_KEY"; value = 8 ∷ 9 ∷ [] }

abbrev after_set : Vault
after_set =
    (set_secret (λ k n p. p) [] no_failure true 5
      (some (0 ∷ 0 ∷ 0 ∷ 0 ∷ 0 ∷ 0 ∷ 0 ∷ 0 ∷ 0 ∷ 0 ∷ 0 ∷ 0 ∷ [])) agent (some new_key) agents
      vault).0

abbrev globals_fail : Call → Bool
globals_fail global_rows = true
globals_fail _ = false

-- A failed query for the global secrets is not noticed: the bundle lacks them.
partial :
    (values no_cipher [] sha WsAuth.healthy globals_fail 9 "" agent vault agents).1
    ≡ bundle (λ k. none)
unfolding values is_uuid has_any_live_token starfire_agent_team.Sql.count
    starfire_agent_team.Sql.select
partial = refl
