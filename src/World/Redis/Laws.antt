-- ===== src/World/Redis/Laws.antt =====
-- What a read of a Redis key returns after each write of one.
use starfire_agent_team.Prelude.{
  ℕ, ◌+◌, ◌≡◌, String, false, none, arith, if◌then◌else◌, ◌==◌, eq_refl, ltb,
}
use starfire_agent_team.World.Redis.{
  Cache, set_online, refresh_ttl, get_cached_url, get_cached_internal_url, clear_workspace_keys,
  is_online,
}

-- A workspace that was set online at a time is online for the next 60 seconds and no longer,
-- unless refreshed.
pub is_online-set_online :
    (now later : ℕ) (i : String) (c : Cache)
    → is_online later i (set_online now i c) ≡ ltb later (now + 60)
unfolding is_online set_online
is_online-set_online now later i c = ground (arith, eq_refl i)

-- After the keys of a workspace are cleared it is offline and has no cached URL of either kind,
-- and the keys of every other workspace read as before.
pub clear_workspace_keys_lem :
    (now : ℕ) (i j : String) (c : Cache)
    → (is_online now j (clear_workspace_keys i c) ≡ (if i == j then false else is_online now j c))
      × (get_cached_url now j (clear_workspace_keys i c)
          ≡ (if i == j then none else get_cached_url now j c))
      × (get_cached_internal_url now j (clear_workspace_keys i c)
          ≡ (if i == j then none else get_cached_internal_url now j c))
unfolding is_online get_cached_url get_cached_internal_url clear_workspace_keys
clear_workspace_keys_lem now i j c = (ground arith, ground arith, ground arith)

-- A heartbeat moves the deadline of a liveness key that is still there, and does not revive one
-- that has expired.
pub is_online-refresh_ttl :
    (now later : ℕ) (i : String) (c : Cache)
    → is_online later i (refresh_ttl now i c)
      ≡ (if is_online now i c then ltb later (now + 60) else false)
unfolding is_online refresh_ttl
is_online-refresh_ttl now later i c = ground (arith, eq_refl i)
