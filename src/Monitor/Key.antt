-- ===== src/Monitor/Key.antt =====
-- How StartLivenessMonitor of registry/liveness.go reads an expired Redis key. db/redis.go writes
-- `ws:{id}` for liveness, and `ws:{id}:url` and `ws:{id}:internal_url` beside it.
pub mod Laws
use Prim.Native.Char.{code}
use starfire_agent_team.Prelude.{
  String, Bool, true, false, Option, none, some, concat, if◌then◌else◌,
}
use starfire_agent_team.Text.{has_prefix, drop_chars, contains_char}

pub liveness_key : String → String
liveness_key i = concat "ws:" i

pub url_key : String → String
url_key i = concat "ws:" (concat i ":url")

pub internal_url_key : String → String
internal_url_key i = concat "ws:" (concat i ":internal_url")

-- SplitN(key, ":", 3) has two parts exactly if no colon follows the first one, which ends the
-- prefix; the second part is what follows.
unfoldable pub expired_workspace : String → Option String
expired_workspace key =
    if has_prefix key "ws:"
    then (if contains_char b':' (drop_chars 3 key) then none else some (drop_chars 3 key))
    else none
