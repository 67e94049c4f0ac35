-- ===== src/Proxy.antt =====
-- handlers/a2a_proxy.go: a request to the agent of a workspace, from the checks on its caller to the
-- answer. What the agent does with it is the parameter `agent`; the JSON-RPC envelope, timeouts and
-- the activity log are not modelled. A body that is no JSON is `none`.
pub mod Laws
pub mod Settled
mod Tests
use starfire_agent_team.Prelude.{
  ℕ, String, Bool, true, false, ◌&&◌, ◌||◌, not, Option, none, some, List, [], ◌∷◌, ◌==◌,
  if◌then◌else◌, or_else, any, ◌⊎◌, inl, inr,
}
use starfire_agent_team.Text.{is_empty, has_prefix, contains}
use starfire_agent_team.World.StatusColumn.{Status, provisioning, removed}
use starfire_agent_team.World.Redis.{cache_url, get_cached_url, clear_workspace_keys}
use starfire_agent_team.World.{
  Workspace, World, Response, reply, error, attempt, workspace, with_cache, record_and_broadcast,
}
use starfire_agent_team.WsAuth
use starfire_agent_team.Access.{Lookup, can_communicate}
use starfire_agent_team.Registry.Gate.{validate_caller_token}
use starfire_agent_team.Monitor.{mark_offline}
use starfire_agent_team.Discovery.{internal_url, runtime_text, row_unless, url_text}

-- The calls that can fail; the access check and the token gate have their own.
pub data Call : Type 0 where
  read_cache lookup write_cache runtime_query offline_write broadcast : Call

-- An error of the HTTP client: what errors.Is says of it, and its text.
pub record GoError : Type 0 where
  pub deadline_exceeded : Bool
  pub eof : Bool
  pub message : String

-- What comes back from an agent: an answer, one that breaks off, or none.
pub data Reply : Type 0 where
  answer : ℕ → String → Reply
  unreadable : Reply
  unreachable : GoError → Reply

-- The world after a request, the URL that was posted to, whether `go h.RestartByID` was called,
-- whether the answer is a proxyA2AError, and the answer to the caller.
pub record Proxied : Type 0 where
  pub world : World
  pub posted : Option String
  pub restarting : Bool
  pub is_error : Bool
  pub response : Response

abbrev system_caller_prefixes : List String
system_caller_prefixes = "webhook:" ∷ "system:" ∷ "test:" ∷ "channel:" ∷ []

unfoldable pub is_system_caller : String → Bool
is_system_caller caller = any (has_prefix caller) system_caller_prefixes

unfoldable pub is_upstream_busy_error : GoError → Bool
is_upstream_busy_error e =
    e.deadline_exceeded
    || e.eof
    || contains e.message "context deadline exceeded"
    || contains e.message "EOF"
    || contains e.message "connection reset"

abbrev pub refused : World → Response → Proxied
refused w r = record { world = w; posted = none; restarting = false; is_error = true; response = r }

module _ (fails : Call → Bool) where
  resolve_row : ℕ → String → Option Workspace → World → World × (Response ⊎ String)
  resolve_row now i none w = (w, inl (error 404 "workspace not found"))
  resolve_row now i (some r) w =
      if is_empty (or_else "" r.url) then (w, inl (error 503 "workspace has no URL")) else (
        attempt (fails write_cache) (with_cache (cache_url now i (or_else "" r.url))) w,
        inr (or_else "" r.url),
      )

  -- Cache first, then DB.
  resolve : ℕ → String → World → World × (Response ⊎ String)
  unfolding resolve_row
  resolve now i w = elim (if fails read_cache then none else get_cached_url now i w.cache) [
    | some u ↦ (w, inr u)
    | none ↦
        if fails lookup
        then (w, inl (error 500 "lookup failed"))
        else resolve_row now i (workspace i w) w
  ]

  -- The container is taken for dead.
  mark_dead : ℕ → String → World → World
  mark_dead now i w = record_and_broadcast (fails broadcast) "WORKSPACE_OFFLINE" i (
      with_cache (clear_workspace_keys i)
        (attempt (fails offline_write) (mark_offline (removed ∷ provisioning ∷ []) now i) w))

  -- `running` is what IsRunning says, `none` for its error: `running, _ :=` drops the error and
  -- keeps false.
  unfoldable pub looks_dead : Bool → Option Bool → String → World → Bool
  looks_dead has_provisioner running i w =
      has_provisioner
      && not (runtime_text (row_unless (fails runtime_query) i w) == "external")
      && not (or_else false running)

  unreachable_answer : GoError → Response
  unreachable_answer e =
      if is_upstream_busy_error e
      then reply 503 (
          ("error", "workspace agent busy — retry after a short backoff")
          ∷ ("retry_after", "30")
          ∷ [])
      else error 502 "failed to reach workspace agent"

  unfoldable pub forwarded : Bool → Option Bool → ℕ → String → String → Reply → World → Proxied
  unfolding mark_dead unreachable_answer
  forwarded has_provisioner running now i url (answer code body) w = record {
    world = w;
    posted = some url;
    restarting = false;
    is_error = false;
    response = reply code (("body", body) ∷ []);
  }
  forwarded has_provisioner running now i url unreadable w = record {
    world = w;
    posted = some url;
    restarting = false;
    is_error = true;
    response = error 502 "failed to read agent response";
  }
  forwarded has_provisioner running now i url (unreachable e) w =
      if looks_dead has_provisioner running i w
      then record {
        world = mark_dead now i w;
        posted = some url;
        restarting = true;
        is_error = true;
        response = reply 503 (
            ("error", "workspace agent unreachable — container restart triggered")
            ∷ ("restarting", "true")
            ∷ []);
      }
      else record {
        world = w;
        posted = some url;
        restarting = false;
        is_error = true;
        response = unreachable_answer e;
      }

module _ (fails : Call → Bool) (has_provisioner in_docker : Bool) (agent : String → String → Reply)
    (running : Option Bool) where
  host_url : String → String → String
  host_url i u =
      if has_prefix u "http://127.0.0.1:" && has_provisioner && in_docker then internal_url i else u

  send : ℕ → String → Option String → World × (Response ⊎ String) → Proxied
  unfolding forwarded host_url
  send now i body (w, inl r) = refused w r
  send now i none (w, inr u) = refused w (error 400 "invalid JSON")
  send now i (some text) (w, inr u) =
      forwarded fails has_provisioner running now i (host_url i u) (agent (host_url i u) text) w

  -- proxyA2ARequest, which webhooks, channels and the scheduler call too
  unfoldable pub proxy_a2a_request :
      (Lookup → Bool) → ℕ → String → String → Option String → World → Proxied
  unfolding send resolve
  proxy_a2a_request links now caller i body w =
      if not (is_empty caller)
        && not (caller == i)
        && not (is_system_caller caller)
        && not (can_communicate links caller i w)
      then refused w (error 403 "access denied: workspaces cannot communicate per hierarchy rules")
      else send now i body (resolve fails now i w)

  module _ (sha256 : String → String) (auth : WsAuth.Call → Bool) where
    proxy_after :
        (Lookup → Bool) → ℕ → String → String → Option String → World × Option Response → Proxied
    proxy_after links now caller i body (w, some r) = refused w r
    proxy_after links now caller i body (w, none) = proxy_a2a_request links now caller i body w

    -- The HTTP handler ProxyA2A
    unfoldable pub proxy_a2a :
        (Lookup → Bool) → ℕ → String → String → String → Option String → World → Proxied
    unfolding proxy_after
    proxy_a2a links now header caller i body w =
        if not (is_empty caller) && not (is_system_caller caller) && not (caller == i)
        then proxy_after links now caller i body
            (validate_caller_token sha256 auth now header caller w)
        else proxy_a2a_request links now caller i body w
