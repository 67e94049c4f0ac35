-- ===== src/Discovery.antt =====
-- handlers/discovery.go: Discover, Peers and CheckAccess. In Discover the code after the answers to
-- a workspace is not modelled: a request without X-Workspace-ID has been refused before it.
pub mod Laws
mod Tests
use starfire_agent_team.Prelude.{
  ℕ, String, Bool, true, false, ◌&&◌, not, Option, none, some, List, [], ◌∷◌, ◌++◌, concat, ◌==◌,
  if◌then◌else◌, or_else, some_eq, is_some, ◌||◌,
}
use starfire_agent_team.Sql.{select}
use starfire_agent_team.Text.{is_empty, take_chars, replace_first}
use starfire_agent_team.World.StatusColumn.{Status, online, degraded, removed, is, one_of}
use starfire_agent_team.World.Redis.{cache_internal_url, get_cached_internal_url}
use starfire_agent_team.World.{
  Workspace, World, Response, reply, error, attempt, has_id, workspace, with_cache,
}
use starfire_agent_team.WsAuth
use starfire_agent_team.Access.{Lookup, can_communicate}
use starfire_agent_team.Registry.Gate.{validate_discovery_caller}

-- The calls of this file that can fail; the access check has its own.
pub data Call : Type 0 where
  parent_query siblings_query children_query parent_row : Call
  target_query url_query caller_query read_cache status_query write_cache : Call

-- w.status != 'removed'
abbrev pub listed : Workspace → Bool
listed r = not (is r.status removed)

abbrev sibling_of : Option String → String → Workspace → Bool
sibling_of (some p) i r = some_eq r.parent_id p && not (has_id i r) && listed r
sibling_of none i r = not (is_some r.parent_id) && not (has_id i r) && listed r

abbrev rows_unless : Bool → List Workspace → List Workspace
rows_unless failed rows = if failed then [] else rows

pub data PeersAnswer : Type 0 where
  refused : Response → PeersAnswer
  peers : List Workspace → PeersAnswer

-- provisioner.InternalURL
unfoldable pub internal_url : String → String
internal_url i = concat "http://ws-" (concat (take_chars 12 i) ":8000")

docker_host : String → String
docker_host u =
    replace_first "localhost" "host.docker.internal"
      (replace_first "127.0.0.1" "host.docker.internal" u)

abbrev pub runtime_text : Option Workspace → String
runtime_text none = ""
runtime_text (some r) = or_else "langgraph" r.runtime

abbrev pub url_text : Option Workspace → String
url_text none = ""
url_text (some r) = or_else "" r.url

abbrev name_text : Option Workspace → String
name_text none = ""
name_text (some r) = r.name

abbrev found : String → String → String → Response
found i url name = reply 200 (("id", i) ∷ ("url", url) ∷ ("name", name) ∷ [])

-- The row of a query whose error leaves the variables empty.
abbrev pub row_unless : Bool → String → World → Option Workspace
row_unless failed i w = if failed then none else workspace i w

module _ (fails : Call → Bool) where
  parent_listed : Option String → List Workspace → List Workspace
  parent_listed none rows = []
  parent_listed (some p) rows =
      rows_unless (fails parent_row) (select (λ r. has_id p r && listed r) rows)

  peers_of : String → Option String → List Workspace → List Workspace
  unfolding parent_listed
  peers_of i parent rows =
      rows_unless (fails siblings_query) (select (sibling_of parent i) rows)
      ++ rows_unless (fails children_query) (select (λ r. some_eq r.parent_id i && listed r) rows)
      ++ parent_listed parent rows

  peers_answer : String → World → PeersAnswer
  unfolding peers_of
  peers_answer i w =
      if fails parent_query then refused (error 500 "lookup failed") else elim (workspace i w) [
        | none ↦ refused (error 404 "workspace not found")
        | some r ↦ peers (peers_of i r.parent_id w.workspaces)
      ]

  -- The URL of an external workspace, "" where there is none to give.
  external_url : String → String → World → String
  unfolding docker_host
  external_url caller i w =
      let url = url_text (row_unless (fails url_query) i w) in
      (if runtime_text (row_unless (fails target_query) i w) == "external"
        then (if is_empty url
              || runtime_text (row_unless (fails caller_query) caller w) == "external"
            then url
            else docker_host url)
        else "")

  by_status : ℕ → String → String → World → World × Response
  unfolding internal_url
  by_status now i name w = elim (row_unless (fails status_query) i w) [
    | none ↦ (w, error 404 "workspace not found")
    | some r ↦
        if one_of (online ∷ degraded ∷ []) r.status
        then (
          attempt (fails write_cache) (with_cache (cache_internal_url now i (internal_url i))) w,
          found i (internal_url i) name,
        )
        else (w, error 503 "workspace not available")
  ]

  by_cache : ℕ → String → String → World → World × Response
  unfolding by_status
  by_cache now i name w =
      let cached =
        or_else "" (if fails read_cache then none else get_cached_internal_url now i w.cache) in
      (if is_empty cached then by_status now i name w else (w, found i cached name))

  locate : ℕ → String → String → World → World × Response
  unfolding by_cache external_url
  locate now caller i w =
      let name = name_text (row_unless (fails target_query) i w) in
      let url = external_url caller i w in
      (if is_empty url then by_cache now i name w else (w, found i url name))

module _ (sha256 : String → String) (auth : WsAuth.Call → Bool) (fails : Call → Bool) where
  peers_after : String → World × Option Response → World × PeersAnswer
  unfolding peers_answer
  peers_after i (w, some answer) = (w, refused answer)
  peers_after i (w, none) = (w, peers_answer fails i w)

  unfoldable pub get_peers : ℕ → String → String → World → World × PeersAnswer
  unfolding peers_after
  get_peers now header i w = peers_after i (validate_discovery_caller sha256 auth now header i w)

  discover_after :
      (Lookup → Bool) → ℕ → String → String → World × Option Response → World × Response
  unfolding locate
  discover_after links now caller i (w, some answer) = (w, answer)
  discover_after links now caller i (w, none) =
      if can_communicate links caller i w
      then locate fails now caller i w
      else (w, error 403 "not authorized to discover this workspace")

  unfoldable pub discover :
      (Lookup → Bool) → ℕ → String → String → String → World → World × Response
  unfolding discover_after
  discover links now header caller i w =
      if is_empty caller
      then (w, error 400 "X-Workspace-ID header is required")
      else discover_after links now caller i
          (validate_discovery_caller sha256 auth now header caller w)

-- CheckAccess, `none` for a body that cannot be read
unfoldable pub check_access :
    (Lookup → Bool) → Option (String × String) → World → Response × Option Bool
check_access links none w = (error 400 "bad request", none)
check_access links (some (caller, target)) w =
    (reply 200 [], some (can_communicate links caller target w))
