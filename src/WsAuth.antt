-- ===== src/WsAuth.antt =====
-- wsauth/tokens.go: bearer tokens of workspaces, of which only the hash is stored. SHA-256 is the
-- parameter `sha256`; the random bytes come in encoded, `none` when reading them fails.
pub mod Laws
mod Tests
use starfire_agent_team.Prelude.{
  ℕ, String, Bool, true, false, ◌&&◌, ◌||◌, not, Option, none, some, List, [], ◌∷◌, if◌then◌else◌,
  ◌==◌, ltb, eqb, any,
}
use starfire_agent_team.Sql.{first, update, count}
use starfire_agent_team.Text.{is_empty, has_prefix, trim_space, drop_chars, take_chars}
use starfire_agent_team.World.{World, Token, attempt}

-- The statements of this file that can fail.
pub data Call : Type 0 where
  insert lookup touch revoke exists : Call

abbrev pub has_hash : String → Token → Bool
has_hash h t = t.token_hash == h

abbrev pub live_hash : String → Token → Bool
live_hash h t = t.token_hash == h && not t.revoked

abbrev pub live_of : String → Token → Bool
live_of i t = t.workspace_id == i && not t.revoked

abbrev pub token_prefix_len : ℕ
token_prefix_len = 8

fresh_token : ℕ → String → String → String → Token
fresh_token new_id i hash plaintext = record {
  id = new_id;
  workspace_id = i;
  token_hash = hash;
  prefix = take_chars token_prefix_len plaintext;
  revoked = false;
  last_used_at = none;
}

touched : ℕ → Token → Token
touched now t = record t { last_used_at = some now }

revoked_token : Token → Token
revoked_token t = record t { revoked = true }

module _ (sha256 : String → String) (fails : Call → Bool) where
  -- The insert fails too where the hash is on file: UNIQUE (token_hash).
  store_token : ℕ → String → String → World → World × Option String
  unfolding fresh_token
  store_token new_id i plaintext w =
      if fails insert || any (has_hash (sha256 plaintext)) w.tokens then (w, none) else (
        record w { tokens = fresh_token new_id i (sha256 plaintext) plaintext ∷ w.tokens },
        some plaintext,
      )

  unfoldable pub issue_token : ℕ → Option String → String → World → World × Option String
  unfolding store_token
  issue_token new_id none i w = (w, none)
  issue_token new_id (some plaintext) i w = store_token new_id i plaintext w

  touch_last_used : ℕ → Token → World → World
  unfolding touched
  touch_last_used now t w =
      if fails touch
      then w
      else record w { tokens = update (λ u. eqb u.id t.id) (touched now) w.tokens }

  check_row : ℕ → String → Option Token → World → World × Bool
  check_row now expected none w = (w, false)
  check_row now expected (some t) w =
      if t.workspace_id == expected then (touch_last_used now t w, true) else (w, false)

  -- true for a nil error, false for ErrInvalidToken
  unfoldable pub validate_token : ℕ → String → String → World → World × Bool
  unfolding check_row touch_last_used
  validate_token now expected plaintext w =
      if is_empty plaintext || is_empty expected || fails lookup
      then (w, false)
      else check_row now expected (first (live_hash (sha256 plaintext)) w.tokens) w

module _ (fails : Call → Bool) where
  unfoldable pub revoke_all_for_workspace : String → World → World × Bool
  unfolding revoked_token
  revoke_all_for_workspace i w =
      if fails revoke
      then (w, false)
      else (record w { tokens = update (live_of i) revoked_token w.tokens }, true)

  -- `none` for a query error
  unfoldable pub has_any_live_token : String → World → Option Bool
  has_any_live_token i w = if fails exists then none else some (ltb 0 (count (live_of i) w.tokens))

unfoldable pub bearer_token_from_header : String → String
bearer_token_from_header h = if has_prefix h "Bearer " then trim_space (drop_chars 7 h) else ""

-- No statement fails.
abbrev pub healthy : Call → Bool
healthy _ = false
