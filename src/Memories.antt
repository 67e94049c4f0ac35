-- ===== src/Memories.antt =====
-- handlers/memories.go: facts that agents store with a scope (LOCAL, TEAM, GLOBAL) and a namespace.
-- Postgres' text search is a parameter: the match and the rank of a content against a query text,
-- and ILIKE with the query text as a part.
pub mod Scopes
pub mod Visible
mod Tests
use starfire_agent_team.Prelude.{
  ℕ, String, Bool, true, false, ◌&&◌, ◌||◌, not, Option, none, some, List, [], ◌∷◌, ◌++◌,
  if◌then◌else◌, ◌==◌, leb, ltb, any, some_eq, or_else,
}
use starfire_agent_team.Text.{is_empty, byte_length}
use starfire_agent_team.Sql.{select, delete, count}
use starfire_agent_team.Sql.Order.{order_desc, limit}
use starfire_agent_team.World.StatusColumn.{removed, is}
use starfire_agent_team.World.{Workspace, World, Response, reply, error, has_id, workspace}
use starfire_agent_team.Access.{Lookup, can_communicate}

-- A row of `agent_memories`; the scope is the text that the column holds.
pub record Memory : Type 0 where
  pub id : String
  pub workspace_id : String
  pub content : String
  pub scope : String
  pub namespace : String
  pub created_at : ℕ

pub record CommitBody : Type 0 where
  pub content : String
  pub scope : String
  pub namespace : String

pub record Query : Type 0 where
  pub scope : String
  pub q : String
  pub namespace : String

-- What Postgres does with texts.
pub record TextSearch : Type 0 where
  pub matches : String → String → Bool
  pub rank : String → String → ℕ
  pub ilike : String → String → Bool

-- The statements of this file that can fail.
pub data Call : Type 0 where
  parent insert search delete_row : Call

abbrev pub default_memory_namespace : String
default_memory_namespace = "general"

abbrev pub memory_fts_min_query_len : ℕ
memory_fts_min_query_len = 2

abbrev pub same_id : String → Memory → Bool
same_id i m = m.id == i

abbrev parent_of : Option Workspace → Option String
parent_of none = none
parent_of (some r) = r.parent_id

-- SELECT parent_id FROM workspaces WHERE id = $1, nil also where the query fails
abbrev pub parent_id : Bool → String → World → Option String
parent_id failed i w = if failed then none else parent_of (workspace i w)

abbrev pub is_scope : String → Bool
is_scope s = s == "LOCAL" || s == "TEAM" || s == "GLOBAL"

abbrev pub namespace_or_default : String → String
namespace_or_default s = if is_empty s then default_memory_namespace else s

committed : ℕ → String → String → CommitBody → Memory
committed now new_id i b = record {
  id = new_id;
  workspace_id = i;
  content = b.content;
  scope = b.scope;
  namespace = namespace_or_default b.namespace;
  created_at = now;
}

abbrev is_set : Option String → Bool
is_set none = false
is_set (some p) = true

-- The insert fails too where the workspace is not on file, or the id is.
unfoldable pub commit :
    (Call → Bool)
    → ℕ
    → String
    → String
    → Option CommitBody
    → World
    → List Memory
    → List Memory × Response
unfolding committed
commit fails now new_id i none w memories = (memories, error 400 "bad body")
commit fails now new_id i (some b) w memories =
    if not (is_scope b.scope)
    then (memories, error 400 "scope must be LOCAL, TEAM, or GLOBAL")
    else if ltb 50 (byte_length (namespace_or_default b.namespace))
    then (memories, error 400 "namespace must be <= 50 characters")
    else if b.scope == "GLOBAL" && is_set (parent_id (fails parent) i w)
    then (memories, error 403 "only root workspaces can write GLOBAL memories")
    else if fails insert || any (same_id new_id) memories || not (any (has_id i) w.workspaces)
    then (memories, error 500 "failed to store memory")
    else (
      memories ++ committed now new_id i b ∷ [],
      reply 201 (
          ("id", new_id)
          ∷ ("scope", b.scope)
          ∷ ("namespace", namespace_or_default b.namespace)
          ∷ []),
    )

-- w.status != 'removed' AND (w.parent_id = $1 OR w.id = $1)
abbrev pub in_team : String → Workspace → Bool
in_team anchor r = not (is r.status removed) && (some_eq r.parent_id anchor || r.id == anchor)

abbrev joined : (Workspace → Bool) → Option Workspace → Bool
joined p none = false
joined p (some r) = p r

-- The WHERE clause that the scope selects.
unfoldable pub in_scope : String → String → Option String → World → Memory → Bool
in_scope scope i p w m =
    if scope == "LOCAL"
    then m.workspace_id == i && m.scope == "LOCAL"
    else if scope == "TEAM"
    then m.scope == "TEAM" && joined (in_team (or_else i p)) (workspace m.workspace_id w)
    else if scope == "GLOBAL"
    then m.scope == "GLOBAL"
    else m.workspace_id == i

-- The optional clauses on the namespace and the text.
unfoldable pub filters : TextSearch → Query → Memory → Bool
filters ts qu m =
    (is_empty qu.namespace || m.namespace == qu.namespace)
    && (if leb memory_fts_min_query_len (byte_length qu.q)
        then ts.matches m.content qu.q
        else (is_empty qu.q || ts.ilike m.content qu.q))

unfoldable pub ordered : TextSearch → Query → List Memory → List Memory
ordered ts qu rows =
    let recent = order_desc (λ m. m.created_at) rows in
    if leb memory_fts_min_query_len (byte_length qu.q)
    then order_desc (λ m. ts.rank m.content qu.q) recent
    else recent

-- The access check on each row of the answer.
unfoldable pub reachable : (Lookup → Bool) → String → World → Memory → Bool
reachable links i w m =
    if m.scope == "TEAM" && not (m.workspace_id == i)
    then can_communicate links i m.workspace_id w
    else true

-- What the query returns, for a caller whose parent is `p`.
abbrev pub found : TextSearch → String → Option String → Query → World → List Memory → List Memory
found ts i p qu w memories =
    limit 50 (ordered ts qu (select (λ m. in_scope qu.scope i p w m && filters ts qu m) memories))

-- `none` for the answer 500
unfoldable pub search_memories :
    (Call → Bool)
    → (Lookup → Bool)
    → TextSearch
    → String
    → Query
    → World
    → List Memory
    → Option (List Memory)
unfolding reachable
search_memories fails links ts i qu w memories =
    if fails search
    then none
    else some
        (select (reachable links i w) (found ts i (parent_id (fails parent) i w) qu w memories))

abbrev pub owned : String → String → Memory → Bool
owned memory_id i m = m.id == memory_id && m.workspace_id == i

unfoldable pub delete_memory :
    (Call → Bool) → String → String → List Memory → List Memory × Response
delete_memory fails i memory_id memories =
    if fails delete_row
    then (memories, error 500 "delete failed")
    else if not (any (owned memory_id i) memories)
    then (memories, error 404 "memory not found or not owned by this workspace")
    else (delete (owned memory_id i) memories, reply 200 (("status", "deleted") ∷ []))
