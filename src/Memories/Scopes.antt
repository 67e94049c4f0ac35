-- ===== src/Memories/Scopes.antt =====
-- Who may write with which scope, and what the writer, its team and others then see.
use starfire_agent_team.Prelude.{
  ℕ, ◌≡◌, refl, sym, ◌∙◌, ap, String, Bool, true, false, ◌&&◌, Option, none, some, List, [], ◌∷◌,
  ◌++◌, arith, all, inl, inr, ◌⊎◌, eq_iff, eq_refl, ◌==◌, Bool-cases, Option-cases, some_eq, ltb,
  or_else,
}
use starfire_agent_team.Sql.{select}
use starfire_agent_team.Sql.Order.{
  order_desc, limit, all_of, select-all, select-append, order_desc_last, all-select_of,
}
use starfire_agent_team.Sql.Laws.{first_of_any}
use starfire_agent_team.Memories.Visible.{all-found}
use starfire_agent_team.World.{Workspace, World, workspace, has_id}
use starfire_agent_team.World.Laws.{workspace-id}
use starfire_agent_team.Access.{Lookup, healthy}
use starfire_agent_team.Access.Laws.{Linked, can_communicate_iff}
use starfire_agent_team.Memories.{
  Memory, Query, TextSearch, Call, CommitBody, parent, search, parent_id, in_team, in_scope,
  reachable, commit, committed, search_memories, namespace_or_default, filters, ordered, found,
}

some_of_eq : (o : Option String) (t : String) → some_eq o t ≡ true → o ≡ some t
some_of_eq none t h = cc
some_of_eq (some s) t h = ap some ((eq_iff s t).0 h)

team_cases :
    (anchor : String) (q : Workspace)
    → in_team anchor q ≡ true
    → (q.parent_id ≡ some anchor) ⊎ (q.id ≡ anchor)
team_cases anchor q h = elim (Bool-cases (some_eq q.parent_id anchor)) [
  | inl e ↦ inl (some_of_eq q.parent_id anchor e)
  | inr e ↦ inr ((eq_iff q.id anchor).0 (ground arith))
]

-- Whoever is in the team of a workspace on file is linked to it.
Linked-team :
    (i j : String) (w : World) (r q : Workspace)
    → workspace i w ≡ some r
    → workspace j w ≡ some q
    → (i == j) ≡ false
    → in_team (or_else i r.parent_id) q ≡ true
    → Linked w i j
Linked-team i j w r q er eq apart team = inr (r, q, er, eq, kin r.parent_id refl)
  where
    kin :
        (p : Option String)
        → r.parent_id ≡ p
        → (r.parent_id ≡ q.parent_id) ⊎ (q.parent_id ≡ some i) ⊎ (r.parent_id ≡ some j)
    kin none e = elim (team_cases i q (rw e at team)) [
      | inl child ↦ inr (inl child)
      | inr self ↦ absurd (ground (arith, workspace-id j w q eq, eq_iff i j))
    ]
    kin (some p) e = elim (team_cases p q (rw e at team)) [
      | inl sibling ↦ inl (e ∙ sym sibling)
      | inr above ↦ inr (inr (e ∙ ap some (sym above ∙ workspace-id j w q eq)))
    ]

team_reachable :
    (i : String) (w : World) (r : Workspace) (m : Memory)
    → workspace i w ≡ some r
    → in_scope "TEAM" i r.parent_id w m ≡ true
    → reachable healthy i w m ≡ true
unfolding in_scope reachable
team_reachable i w r m er h = elim (Bool-cases (i == m.workspace_id)) [
  | inl e ↦ ground (arith, eq_iff i m.workspace_id, eq_iff m.workspace_id i)
  | inr apart ↦ elim (Option-cases (workspace m.workspace_id w)) [
    | inl e ↦ absurd (ground arith)
    | inr (q, e) ↦
        let ok =
          (can_communicate_iff w i m.workspace_id).1
            (Linked-team i m.workspace_id w r q er e apart (ground arith)) in
        ground arith
  ]
]

-- For a workspace on file the access check drops nothing of a TEAM search: where no statement fails,
-- the answer is what the query found.
pub search-team :
    (fails : Call → Bool) (ts : TextSearch) (i : String) (qu : Query) (w : World) (r : Workspace)
    (memories : List Memory)
    → fails parent ≡ false
    → fails search ≡ false
    → workspace i w ≡ some r
    → qu.scope ≡ "TEAM"
    → search_memories fails healthy ts i qu w memories ≡ some (found ts i r.parent_id qu w memories)
unfolding search_memories
search-team fails ts i qu w r memories up ok er team =
    rw (ok, up, er)
      (ap some (
        select-all (reachable healthy i w) rows (
          all_of (in_scope qu.scope i r.parent_id w) (reachable healthy i w)
            (λ m h. team_reachable i w r m er (rw team at h)) rows
            (all-found ts i r.parent_id qu w memories))))
  where
    rows : List Memory
    rows = found ts i r.parent_id qu w memories

-- A GLOBAL memory is stored, where the query for the parent succeeds, only for a workspace on file
-- that has no parent.
pub commit_global :
    (fails : Call → Bool) (now : ℕ) (new_id i : String) (b : CommitBody) (w : World)
    (memories : List Memory)
    → (commit fails now new_id i (some b) w memories).1.code ≡ 201
    → b.scope ≡ "GLOBAL"
    → fails parent ≡ false
    → (r : Workspace) × (workspace i w ≡ some r) × (r.parent_id ≡ none)
unfolding commit workspace
commit_global fails now new_id i b w memories ok global up =
    let (r, found) = first_of_any (has_id i) w.workspaces (ground arith) in (r, found, root r found)
  where
    root : (r : Workspace) → workspace i w ≡ some r → r.parent_id ≡ none
    root r found = elim (Option-cases r.parent_id) [
      | inl e ↦ e
      | inr (p, e) ↦ absurd (ground (arith, eq_iff b.scope "GLOBAL"))
    ]

select_cons :
    (p : Memory → Bool) (m : Memory) (rest : List Memory)
    → p m ≡ true
    → select p (m ∷ rest) ≡ m ∷ select p rest
unfolding select
select_cons p m rest h = rw h refl

abbrev pub local_query : Query
local_query = record { scope = "LOCAL"; q = ""; namespace = "" }

local_ordered :
    (ts : TextSearch) (rows : List Memory) (m : Memory)
    → all (λ x. ltb x.created_at m.created_at) rows ≡ true
    → ordered ts local_query (rows ++ m ∷ []) ≡ m ∷ order_desc (λ x. x.created_at) rows
unfolding ordered
local_ordered ts rows m h = order_desc_last (λ x. x.created_at) rows m h

-- A new LOCAL memory on top of older ones is the first that a LOCAL search of its owner finds.
found-committed :
    (ts : TextSearch) (i : String) (p : Option String) (w : World) (memories : List Memory)
    (m : Memory)
    → all (λ x. ltb x.created_at m.created_at) memories ≡ true
    → m.scope ≡ "LOCAL"
    → m.workspace_id ≡ i
    → (rest : List Memory) × (found ts i p local_query w (memories ++ m ∷ []) ≡ m ∷ rest)
unfolding limit in_scope filters
found-committed ts i p w memories m newest local own = (
  limit 49 (order_desc (λ x. x.created_at) older),
  ap (limit 50) (
      ap (ordered ts local_query) (select-append matches memories m here)
      ∙ local_ordered ts older m (all-select_of _ _ matches (λ x e k. e) memories newest)),
)
  where
    matches : Memory → Bool
    matches x = in_scope "LOCAL" i p w x && filters ts local_query x

    older : List Memory
    older = select matches memories

    here : matches m ≡ true
    here = ground (arith, eq_iff m.workspace_id i, eq_iff m.scope "LOCAL")

committed-commit :
    (fails : Call → Bool) (now : ℕ) (new_id i : String) (b : CommitBody) (w : World)
    (memories : List Memory)
    → (commit fails now new_id i (some b) w memories).1.code ≡ 201
    → (commit fails now new_id i (some b) w memories).0 ≡ memories ++ committed now new_id i b ∷ []
unfolding commit
committed-commit fails now new_id i b w memories ok = ground arith

search_found :
    (fails : Call → Bool) (links : Lookup → Bool) (ts : TextSearch) (i : String) (qu : Query)
    (w : World) (memories : List Memory) (m : Memory) (rest : List Memory)
    → fails search ≡ false
    → found ts i (parent_id (fails parent) i w) qu w memories ≡ m ∷ rest
    → reachable links i w m ≡ true
    → search_memories fails links ts i qu w memories ≡ some (m ∷ select (reachable links i w) rest)
unfolding search_memories
search_found fails links ts i qu w memories m rest ok e here =
    rw (ok, e) (ap some (select_cons (reachable links i w) m rest here))

-- A LOCAL memory that is stored later than all others heads the answer of the next LOCAL search of
-- its workspace without further filters, where that search answers: with the id and content it was
-- stored with, and its namespace, `general` where none was given.
pub search-commit :
    (fails later_fails : Call → Bool) (links : Lookup → Bool) (ts : TextSearch) (now : ℕ)
    (new_id i : String) (b : CommitBody) (w : World) (memories : List Memory)
    → (commit fails now new_id i (some b) w memories).1.code ≡ 201
    → b.scope ≡ "LOCAL"
    → all (λ m. ltb m.created_at now) memories ≡ true
    → later_fails search ≡ false
    → (m : Memory) × (rest : List Memory) × (search_memories later_fails links ts i local_query w
          (commit fails now new_id i (some b) w memories).0
        ≡ some (m ∷ rest))
      × (m.id ≡ new_id)
      × (m.content ≡ b.content)
      × (m.namespace ≡ namespace_or_default b.namespace)
unfolding search_memories reachable committed
search-commit fails later_fails links ts now new_id i b w memories ok local newest answers =
    let (rest, e) =
      found-committed ts i (parent_id (later_fails parent) i w) w memories
        (committed now new_id i b) newest local refl in
    (
      committed now new_id i b,
      select (reachable links i w) rest,
      rw (committed-commit fails now new_id i b w memories ok) (
          search_found later_fails links ts i local_query w _ (committed now new_id i b) rest
            answers e (ground (arith, eq_refl i))),
      refl,
      refl,
      refl,
    )
