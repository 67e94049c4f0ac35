-- ===== src/Discovery/Laws.antt =====
-- What discovery reveals, and to whom: the peers of a workspace are those that the access check
-- lets it reach.
use starfire_agent_team.Prelude.{
  ℕ, String, Bool, true, false, ◌≡◌, refl, ◌≢◌, ◌&&◌, ◌||◌, Option, none, some, List, ◌++◌, arith,
  eq_iff, some_eq, Option-cases, Bool-cases, inl, inr, ◌∙◌, ap, sym,
}
use starfire_agent_team.Sql.{select}
use starfire_agent_team.Text.{is_empty}
use starfire_agent_team.World.Laws.{workspace-id}
use starfire_agent_team.World.Unique.{PrimaryKey, any-select}
use starfire_agent_team.World.{Workspace, World, Response, has_id, workspace}
use starfire_agent_team.WsAuth
use starfire_agent_team.WsAuth.{has_any_live_token, validate_token}
use starfire_agent_team.Access
use starfire_agent_team.Access.{Lookup, can_communicate, same_parent}
use starfire_agent_team.Workspaces.Tree.Laws.{has, has-append}
use starfire_agent_team.Registry.Gate.{validate_discovery_caller}
use starfire_agent_team.Registry.Gate.Laws.{
  workspaces-validate_discovery_caller, code-validate_discovery_caller, Passes, gates_iff,
}
use starfire_agent_team.Discovery.{
  Call, listed, sibling_of, peers, parent_listed, peers_of, peers_answer, peers_after, get_peers,
  discover_after, discover,
}

abbrev pub no_failure : Call → Bool
no_failure _ = false

has-three :
    (j : String) (xs ys zs : List Workspace)
    → has j (xs ++ ys ++ zs) ≡ (has j xs || has j ys || has j zs)
has-three j xs ys zs = ground (arith, has-append j (xs ++ ys) zs, has-append j xs ys)

abbrev child_listed : String → Workspace → Bool
child_listed i r = some_eq r.parent_id i && listed r

has-parent_listed :
    (j : String) (parent : Option String) (w : World) (q : Workspace)
    → PrimaryKey w.workspaces
    → workspace j w ≡ some q
    → has j (parent_listed no_failure parent w.workspaces) ≡ (some_eq parent q.id && listed q)
unfolding parent_listed workspace
has-parent_listed j none w q u e = refl
has-parent_listed j (some p) w q u e =
    any-select j (λ r. has_id p r && listed r) w.workspaces q u e
    ∙ ap (λ b. b && listed q) (ground (arith, eq_iff p q.id, eq_iff q.id p))

-- Which rows the three queries return, by the row.
has-peers_of :
    (i j : String) (parent : Option String) (w : World) (q : Workspace)
    → PrimaryKey w.workspaces
    → workspace j w ≡ some q
    → has j (peers_of no_failure i parent w.workspaces)
      ≡ (sibling_of parent i q || child_listed i q || (some_eq parent q.id && listed q))
unfolding peers_of workspace
has-peers_of i j parent w q u e =
    has-three j (select (sibling_of parent i) w.workspaces) (select (child_listed i) w.workspaces)
      (parent_listed no_failure parent w.workspaces)
    ∙ ap
        (λ b.
          b
          || has j (select (child_listed i) w.workspaces)
          || has j (parent_listed no_failure parent w.workspaces))
        (any-select j (sibling_of parent i) w.workspaces q u e)
    ∙ ap (λ b. sibling_of parent i q || b || has j (parent_listed no_failure parent w.workspaces))
        (any-select j (child_listed i) w.workspaces q u e)
    ∙ ap (λ b. sibling_of parent i q || child_listed i q || b) (has-parent_listed j parent w q u e)

reach-rows :
    (i j : String) (w : World) (r q : Workspace)
    → workspace i w ≡ some r
    → workspace j w ≡ some q
    → i ≢ j
    → can_communicate Access.healthy i j w
      ≡ (same_parent r.parent_id q.parent_id || some_eq q.parent_id i || some_eq r.parent_id j)
unfolding can_communicate
reach-rows i j w r q ei ej apart =
    ground (arith, ei, ej, workspace-id i w r ei, workspace-id j w q ej, eq_iff i j)

listed_reach :
    (i j : String) (a b : Option String) (q : Workspace) (l : Bool)
    → q.parent_id ≡ b
    → q.id ≡ j
    → i ≢ j
    → listed q ≡ l
    → (sibling_of a i q || child_listed i q || (some_eq a q.id && listed q))
      ≡ ((same_parent a b || some_eq b i || some_eq a j) && l)
listed_reach i j none none q l eb ej apart el = ground (arith, eq_iff q.id i)
listed_reach i j none (some c) q l eb ej apart el = ground (arith, eq_iff q.id i)
listed_reach i j (some p) none q l eb ej apart el = ground (arith, eq_iff q.id i)
listed_reach i j (some p) (some c) q l eb ej apart el =
    ground (arith, eq_iff q.id i, eq_iff c p, eq_iff p c, eq_iff p q.id, eq_iff p j)

peers_after_lem :
    (sha256 : String → String) (auth : WsAuth.Call → Bool) (i : String)
    (g : World × Option Response) (w : World) (r : Workspace)
    → g.0.workspaces ≡ w.workspaces
    → workspace i w ≡ some r
    → g.1 ≡ none
    → (peers_after sha256 auth no_failure i g).1
      ≡ peers (peers_of no_failure i r.parent_id w.workspaces)
unfolding peers_after peers_answer workspace
peers_after_lem sha256 auth i (x, some answer) w r same e pass = cc
peers_after_lem sha256 auth i (x, none) w r same e pass =
    rw (same, e) (ap (λ rows. peers (peers_of no_failure i r.parent_id rows)) same)

-- With ids unique, a workspace on file that the gate lets through, and of whose queries none fails,
-- gets a list of peers in which another workspace on file stands exactly if the access check, where
-- its queries succeed, lets it be reached and it is not removed. Whether the workspace itself is
-- listed is not said.
pub peers_iff :
    (sha256 : String → String) (auth : WsAuth.Call → Bool) (now : ℕ) (header i j : String)
    (w : World) (r q : Workspace)
    → PrimaryKey w.workspaces
    → workspace i w ≡ some r
    → workspace j w ≡ some q
    → i ≢ j
    → (validate_discovery_caller sha256 auth now header i w).1 ≡ none
    → (all : List Workspace) × ((get_peers sha256 auth no_failure now header i w).1 ≡ peers all)
      × (has j all ≡ (can_communicate Access.healthy i j w && listed q))
unfolding get_peers
peers_iff sha256 auth now header i j w r q u ei ej apart pass = (
  peers_of no_failure i r.parent_id w.workspaces,
  peers_after_lem sha256 auth i (validate_discovery_caller sha256 auth now header i w) w r
      (workspaces-validate_discovery_caller sha256 auth now header i w) ei pass,
  has-peers_of i j r.parent_id w q u ej
      ∙ listed_reach i j r.parent_id q.parent_id q (listed q) refl (workspace-id j w q ej) apart
          refl
      ∙ ap (λ b. b && listed q) (sym (reach-rows i j w r q ei ej apart)),
)

pub can_communicate-rows :
    (links : Lookup → Bool) (a b : String) (x w : World)
    → x.workspaces ≡ w.workspaces
    → can_communicate links a b x ≡ can_communicate links a b w
unfolding can_communicate workspace
can_communicate-rows links a b x w same =
    ap (λ rows. can_communicate links a b (record w { workspaces = rows })) same

reach_of_answer :
    (sha256 : String → String) (auth : WsAuth.Call → Bool) (fails : Call → Bool)
    (links : Lookup → Bool) (now : ℕ) (caller i : String) (g : World × Option Response)
    → g.1 ≡ none
    → (discover_after sha256 auth fails links now caller i g).1.code ≡ 200
    → can_communicate links caller i g.0 ≡ true
unfolding discover_after
reach_of_answer sha256 auth fails links now caller i (x, some answer) pass ok = cc
reach_of_answer sha256 auth fails links now caller i (x, none) pass ok =
    elim (Bool-cases (can_communicate links caller i x)) [
      | inl reach ↦ reach
      | inr none_ ↦ absurd (ground (arith, none_))
    ]

refused_code :
    (sha256 : String → String) (auth : WsAuth.Call → Bool) (fails : Call → Bool)
    (links : Lookup → Bool) (now : ℕ) (caller i : String) (g : World × Option Response)
    (answer : Response)
    → g.1 ≡ some answer
    → (discover_after sha256 auth fails links now caller i g).1 ≡ answer
unfolding discover_after
refused_code sha256 auth fails links now caller i (x, some other) answer e = cc
refused_code sha256 auth fails links now caller i (x, none) answer e = cc

-- Discover reveals a URL only to a caller that names itself, that the token gate lets through, and
-- that the access check lets reach the target, whichever statements fail.
pub discover_sound :
    (sha256 : String → String) (auth : WsAuth.Call → Bool) (fails : Call → Bool)
    (links : Lookup → Bool) (now : ℕ) (header caller i : String) (w : World)
    → (discover sha256 auth fails links now header caller i w).1.code ≡ 200
    → (is_empty caller ≡ false)
      × Passes sha256 auth now header caller w
      × (can_communicate links caller i w ≡ true)
unfolding discover
discover_sound sha256 auth fails links now header caller i w ok =
    let gate = validate_discovery_caller sha256 auth now header caller w in
    elim (Bool-cases (is_empty caller)) [
      | inl anonymous ↦ absurd (ground (arith, anonymous))
      | inr named ↦
          let ok2 = rw named at ok in
          elim (Option-cases gate.1) [
            | inl pass ↦ (
              named,
              (gates_iff sha256 auth now header caller w).2.0 pass,
              sym (
                    can_communicate-rows links caller i gate.0 w
                      (workspaces-validate_discovery_caller sha256 auth now header caller w))
                  ∙ reach_of_answer sha256 auth fails links now caller i gate pass ok2,
            )
            | inr (answer, e) ↦ absurd (
                ground (
                  arith,
                  code-validate_discovery_caller sha256 auth now header caller w answer e,
                  refused_code sha256 auth fails links now caller i gate answer e,
                ))
          ]
    ]
