-- ===== src/Memories/Tests.antt =====
-- Memories of the family in Samples, with a text search that compares whole texts.
use starfire_agent_team.Prelude.{
  ℕ, String, Bool, true, false, ◌≡◌, refl, some, List, [], ◌∷◌, all, ◌==◌,
}
use starfire_agent_team.World.{workspace}
use starfire_agent_team.Access.{healthy}
use starfire_agent_team.Samples.{family}
use starfire_agent_team.Memories.{
  Memory, Query, TextSearch, Call, parent, CommitBody, found, commit, search_memories,
  delete_memory, namespace_or_default,
}
use starfire_agent_team.Memories.Visible.{visible, search_memories_sound}
use starfire_agent_team.Memories.Scopes.{local_query, search-commit}

abbrev no_failure : Call → Bool
no_failure _ = false

abbrev whole_texts : TextSearch
whole_texts = record {
  matches = λ content q. content == q;
  rank = λ content q. 0;
  ilike = λ content q. content == q;
}

abbrev memory : String → String → String → ℕ → Memory
memory i owner scope at = record {
  id = i;
  workspace_id = owner;
  content = "fact";
  scope = scope;
  namespace = "general";
  created_at = at;
}

abbrev stored : List Memory
stored =
    memory "m1" "root" "TEAM" 10
    ∷ memory "m2" "mid" "LOCAL" 20
    ∷ memory "m3" "leaf" "TEAM" 30
    ∷ memory "m4" "gone" "TEAM" 40
    ∷ memory "m5" "gone" "GLOBAL" 50
    ∷ []

abbrev team_query : Query
team_query = record { scope = "TEAM"; q = ""; namespace = "" }

-- `mid` sees its parent's memory, and neither its child's nor that of the removed workspace.
abbrev shown_to_mid : List Memory
shown_to_mid = memory "m1" "root" "TEAM" 10 ∷ []

search_memories_sound_example : all (visible "mid" family) shown_to_mid ≡ true
unfolding search_memories starfire_agent_team.Sql.select starfire_agent_team.Sql.Order.limit
    starfire_agent_team.Memories.ordered starfire_agent_team.Sql.Order.order_desc
    starfire_agent_team.Memories.in_scope workspace starfire_agent_team.Sql.first
    starfire_agent_team.Memories.filters starfire_agent_team.Access.can_communicate
search_memories_sound_example =
    search_memories_sound no_failure healthy whole_texts "mid" team_query family stored shown_to_mid
      refl

abbrev global_fact : CommitBody
global_fact = record { content = "fact"; scope = "GLOBAL"; namespace = "" }

abbrev local_fact : CommitBody
local_fact = record { content = "fact"; scope = "LOCAL"; namespace = "" }

search-commit_example :
    (m : Memory) × (rest : List Memory) × (search_memories no_failure healthy whole_texts "mid"
        local_query family
        (commit no_failure 60 "m6" "mid" (some local_fact) family stored).0
      ≡ some (m ∷ rest))
    × (m.id ≡ "m6")
    × (m.content ≡ "fact")
    × (m.namespace ≡ namespace_or_default "")
unfolding commit
search-commit_example =
    search-commit no_failure no_failure healthy whole_texts 60 "m6" "mid" local_fact family stored
      refl refl refl refl

abbrev parent_fails : Call → Bool
parent_fails parent = true
parent_fails _ = false

-- A failed query for the parent counts as having none.
child_writes_global :
    (commit parent_fails 60 "m6" "mid" (some global_fact) family stored).1.code ≡ 201
unfolding commit
child_writes_global = refl

foreign_delete : (delete_memory no_failure "root" "m2" stored).1.code ≡ 404
unfolding delete_memory
foreign_delete = refl
