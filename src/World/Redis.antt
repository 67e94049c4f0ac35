-- ===== src/World/Redis.antt =====
-- db/redis.go: the liveness key `ws:{id}` and the two URL keys of a workspace, each with the time
-- at which Redis drops it.
pub mod Laws
use starfire_agent_team.Prelude.{
  ℕ, ◌+◌, String, Bool, true, false, Option, none, some, if◌then◌else◌, ◌==◌, ltb,
}

pub record Entry : Type 0 where
  pub value : String
  pub deadline : ℕ

pub record Cache : Type 0 where
  pub liveness : String → Option Entry
  pub url : String → Option Entry
  pub internal_url : String → Option Entry

-- GET at a time: an entry is gone from its deadline on.
abbrev pub fresh : ℕ → Option Entry → Option String
fresh now none = none
fresh now (some e) = if ltb now e.deadline then some e.value else none

abbrev put {ℓ} : {A : Type ℓ} → String → A → (String → A) → String → A
put i v m j = if i == j then v else m j

abbrev extended : ℕ → Option Entry → Option Entry
extended now none = none
extended now (some e) = if ltb now e.deadline then some (record e { deadline = now + 60 }) else none

unfoldable pub set_online : ℕ → String → Cache → Cache
set_online now i c = record c {
  liveness = put i (some (record { value = "online"; deadline = now + 60 })) c.liveness;
}

-- EXPIRE does not bring an expired key back.
unfoldable pub refresh_ttl : ℕ → String → Cache → Cache
refresh_ttl now i c = record c { liveness = put i (extended now (c.liveness i)) c.liveness }

unfoldable pub cache_url : ℕ → String → String → Cache → Cache
cache_url now i u c = record c {
  url = put i (some (record { value = u; deadline = now + 300 })) c.url;
}

unfoldable pub get_cached_url : ℕ → String → Cache → Option String
get_cached_url now i c = fresh now (c.url i)

unfoldable pub cache_internal_url : ℕ → String → String → Cache → Cache
cache_internal_url now i u c = record c {
  internal_url = put i (some (record { value = u; deadline = now + 300 })) c.internal_url;
}

unfoldable pub get_cached_internal_url : ℕ → String → Cache → Option String
get_cached_internal_url now i c = fresh now (c.internal_url i)

unfoldable pub clear_workspace_keys : String → Cache → Cache
clear_workspace_keys i c = record {
  liveness = put i none c.liveness;
  url = put i none c.url;
  internal_url = put i none c.internal_url;
}

unfoldable pub is_online : ℕ → String → Cache → Bool
is_online now i c = elim (fresh now (c.liveness i)) [ none ↦ false | some v ↦ true ]
