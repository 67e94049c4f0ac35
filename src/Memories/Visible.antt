-- ===== src/Memories/Visible.antt =====
-- Which memories a search shows.
use starfire_agent_team.Prelude.{
  some_inj, ◌≡◌, sym, ◌∙◌, String, Bool, true, false, ◌&&◌, ◌||◌, not, Option, none, some, List,
  arith, all, inl, inr, if◌then◌else◌, eq_iff, ◌==◌, Bool-cases, leb, or_else,
}
use starfire_agent_team.Text.{byte_length}
use starfire_agent_team.Sql.{select}
use starfire_agent_team.Sql.Order.{all-order_desc, all-limit, all-select, all-select_of}
use starfire_agent_team.World.StatusColumn.{removed, is}
use starfire_agent_team.World.{Workspace, World, workspace}
use starfire_agent_team.Access.{Lookup, can_communicate, healthy}
use starfire_agent_team.Access.Laws.{can_communicate_fail_closed}
use starfire_agent_team.Memories.{
  Memory, Query, TextSearch, Call, parent, search, joined, parent_id, in_team, in_scope, ordered,
  found, reachable, search_memories, memory_fts_min_query_len,
}

abbrev pub on_team : Workspace → Bool
on_team r = not (is r.status removed)

-- Its own, a GLOBAL one, or a TEAM one of a workspace that is on file, not removed, and that the
-- access check lets it reach.
abbrev pub visible : String → World → Memory → Bool
visible i w m =
    m.workspace_id == i
    || m.scope == "GLOBAL"
    || (m.scope == "TEAM"
        && can_communicate healthy i m.workspace_id w
        && joined on_team (workspace m.workspace_id w))

joined-on_team :
    (anchor : String) (o : Option Workspace)
    → joined (in_team anchor) o ≡ true
    → joined on_team o ≡ true
joined-on_team anchor none h = cc
joined-on_team anchor (some r) h = ground arith

visible_row :
    (links : Lookup → Bool) (scope i : String) (p : Option String) (w : World) (m : Memory)
    → in_scope scope i p w m ≡ true
    → reachable links i w m ≡ true
    → visible i w m ≡ true
unfolding in_scope reachable
visible_row links scope i p w m h k = ground (
  arith,
  joined-on_team (or_else i p) (workspace m.workspace_id w),
  can_communicate_fail_closed links w i m.workspace_id,
  eq_iff m.scope "TEAM",
  eq_iff m.scope "GLOBAL",
)

all-ordered :
    (f : Memory → Bool) (ts : TextSearch) (qu : Query) (rows : List Memory)
    → all f (ordered ts qu rows) ≡ all f rows
unfolding ordered
all-ordered f ts qu rows = elim (Bool-cases (leb memory_fts_min_query_len (byte_length qu.q))) [
  | inl e ↦ rw e (all-order_desc f _ _ ∙ all-order_desc f _ rows)
  | inr e ↦ rw e (all-order_desc f _ rows)
]

-- What the query returns is in scope.
pub all-found :
    (ts : TextSearch) (i : String) (p : Option String) (qu : Query) (w : World) (ms : List Memory)
    → all (in_scope qu.scope i p w) (found ts i p qu w ms) ≡ true
all-found ts i p qu w ms =
    all-limit _ 50 _ (all-ordered _ ts qu _ ∙ all-select _ _ (λ m h. ground arith) ms)

-- Whatever the scope and the texts of a search, and whichever statements fail, it shows a workspace
-- only its own memories, GLOBAL ones, and TEAM ones of workspaces on file that are not removed and
-- that the access check lets it reach.
pub search_memories_sound :
    (fails : Call → Bool) (links : Lookup → Bool) (ts : TextSearch) (i : String) (qu : Query)
    (w : World) (memories shown : List Memory)
    → search_memories fails links ts i qu w memories ≡ some shown
    → all (visible i w) shown ≡ true
unfolding search_memories
search_memories_sound fails links ts i qu w memories shown e = answer (fails search) e
  where
    p : Option String
    p = parent_id (fails parent) i w

    answer :
        (c : Bool)
        → (if c then none else some (select (reachable links i w) (found ts i p qu w memories)))
          ≡ some shown
        → all (visible i w) shown ≡ true
    answer true k = cc
    answer false k = rw (sym (some_inj k)) (
        all-select_of (in_scope qu.scope i p w) (visible i w) (reachable links i w)
          (visible_row links qu.scope i p w) _ (all-found ts i p qu w memories))
