-- ===== src/Agents/Laws.antt =====
-- A workspace has at most one agent.
use starfire_agent_team.Prelude.{
  ℕ, ◌+◌, ◌≤◌, ◌≡◌, refl, String, Bool, false, Option, none, some, List, [], ◌∷◌, ◌++◌, arith,
  if◌then◌else◌, any, eq_iff, ◌==◌, Bool-cases, Option-cases, inl, inr,
}
use starfire_agent_team.Text.{is_empty}
use starfire_agent_team.Sql.{first, update, count}
use starfire_agent_team.World.{Response}
use starfire_agent_team.Agents.{
  Agent, AgentStatus, replaced, removed, Roster, Call, is_active, runs_in, new_agent, end_agent,
  move_to, vacancy, assign, replace, remove, move, insert_new, assign_after, moved, move_after,
  updated_agents, insert_agent, update_agents,
}

-- At most one active agent in each workspace.
unfoldable pub OneActive : List Agent → Type 0
OneActive rows = (i : String) → count (runs_in i) rows ≤ 1

count-append :
    (p : Agent → Bool) (rows : List Agent) (a : Agent)
    → count p (rows ++ a ∷ []) ≡ count p rows + count p (a ∷ [])
unfolding count
count-append p [] a = ground arith
count-append p (x ∷ rows) a = ground (arith, count-append p rows a)

count-end_agent :
    (i j : String) (now : ℕ) (reason : String) (rows : List Agent) (status : AgentStatus)
    → is_active status ≡ false
    → count (runs_in j) (update (runs_in i) (end_agent now status reason) rows)
      ≤ count (runs_in j) rows
unfolding count update
count-end_agent i j now reason [] status e = omega arith
count-end_agent i j now reason (a ∷ rows) status e =
    ground (arith, count-end_agent i j now reason rows status e)

count-end_agent_self :
    (i : String) (now : ℕ) (reason : String) (rows : List Agent) (status : AgentStatus)
    → is_active status ≡ false
    → count (runs_in i) (update (runs_in i) (end_agent now status reason) rows) ≡ 0
unfolding count update
count-end_agent_self i now reason [] status e = refl
count-end_agent_self i now reason (a ∷ rows) status e =
    ground (arith, count-end_agent_self i now reason rows status e)

-- A move adds the agents of the source to those of the target.
count-move_to :
    (i target j : String) (rows : List Agent)
    → count (runs_in j) (update (runs_in i) (move_to target) rows) ≤ (
        if target == j
        then count (runs_in i) rows + count (runs_in j) rows
        else count (runs_in j) rows)
unfolding count update
count-move_to i target j [] = ground arith
count-move_to i target j (a ∷ rows) =
    ground
      (arith, count-move_to i target j rows, eq_iff target j, eq_iff a.workspace_id i, eq_iff i j)

OneActive-end_agent :
    (i : String) (now : ℕ) (status : AgentStatus) (reason : String) (rows : List Agent)
    → is_active status ≡ false
    → OneActive rows
    → OneActive (update (runs_in i) (end_agent now status reason) rows)
unfolding OneActive
OneActive-end_agent i now status reason rows e h j =
    omega (arith, count-end_agent i j now reason rows status e, h j)

OneActive-append :
    (now : ℕ) (id i model : String) (rows : List Agent)
    → count (runs_in i) rows ≡ 0
    → OneActive rows
    → OneActive (rows ++ new_agent now id i model ∷ [])
unfolding OneActive count
OneActive-append now id i model rows free h j =
    ground (arith, count-append (runs_in j) rows (new_agent now id i model), h j, eq_iff i j)

OneActive-move_to :
    (i target : String) (rows : List Agent)
    → count (runs_in target) rows ≡ 0
    → OneActive rows
    → OneActive (update (runs_in i) (move_to target) rows)
unfolding OneActive
OneActive-move_to i target rows free h j =
    ground (arith, count-move_to i target j rows, h i, h j, eq_iff target j)

vacant :
    (fails : Call → Bool) (i : String) (s : Roster) (missing occupied : Response)
    → vacancy fails missing occupied i s ≡ none
    → count (runs_in i) s.agents ≡ 0
unfolding vacancy
vacant fails i s missing occupied h = ground arith

module _ (fails : Call → Bool) where
  OneActive-insert_new :
      (now : ℕ) (id i kind model : String) (refusal : Response) (s : Roster)
      → count (runs_in i) s.agents ≡ 0
      → OneActive s.agents
      → OneActive (insert_new fails now id i kind model refusal s).0.agents
  unfolding insert_new
  OneActive-insert_new now id i kind model refusal s free h =
      elim (Bool-cases (fails insert_agent)) [
        | inl failed ↦ rw failed h
        | inr stored ↦ rw stored (OneActive-append now id i model s.agents free h)
      ]

  OneActive-assign_after :
      (now : ℕ) (id i model : String) (s : Roster) (missing occupied : Response)
      (o : Option Response)
      → vacancy fails missing occupied i s ≡ o
      → OneActive s.agents
      → OneActive (assign_after fails now id i model o s).0.agents
  OneActive-assign_after now id i model s missing occupied (some refusal) e h = h
  OneActive-assign_after now id i model s missing occupied none e h =
      OneActive-insert_new now id i _ model _ s (vacant fails i s missing occupied e) h

  OneActive-moved :
      (i target : String) (s : Roster) (o : Option Agent)
      → count (runs_in target) s.agents ≡ 0
      → OneActive s.agents
      → OneActive (moved fails i target o s).0.agents
  unfolding moved
  OneActive-moved i target s none free h = h
  OneActive-moved i target s (some a) free h = OneActive-move_to i target s.agents free h

  OneActive-move_after :
      (i target : String) (s : Roster) (missing occupied : Response) (o : Option Response)
      → vacancy fails missing occupied target s ≡ o
      → OneActive s.agents
      → OneActive (move_after fails i target o s).0.agents
  OneActive-move_after i target s missing occupied (some refusal) e h = h
  OneActive-move_after i target s missing occupied none e h =
      elim (Bool-cases (fails update_agents)) [
        | inl failed ↦ rw failed h
        | inr works ↦
            rw works (OneActive-moved i target s _ (vacant fails target s missing occupied e) h)
      ]

  OneActive-assign :
      (now : ℕ) (id i : String) (body : Option String) (s : Roster)
      → OneActive s.agents
      → OneActive (assign fails now id i body s).0.agents
  unfolding assign
  OneActive-assign now id i none s h = h
  OneActive-assign now id i (some model) s h = elim (Bool-cases (is_empty model)) [
    | inl bad ↦ rw bad h
    | inr good ↦ rw good (OneActive-assign_after now id i model s _ _ _ refl h)
  ]

  OneActive-replace :
      (now : ℕ) (id i : String) (body : Option String) (s : Roster)
      → OneActive s.agents
      → OneActive (replace fails now id i body s).0.agents
  unfolding replace
  OneActive-replace now id i none s h = h
  OneActive-replace now id i (some model) s h = elim (Bool-cases (is_empty model)) [
    | inl bad ↦ rw bad h
    | inr good ↦ elim (Bool-cases (fails update_agents)) [
      | inl failed ↦ rw (good, failed) h
      | inr works ↦ elim (Bool-cases (any (runs_in i) s.agents)) [
        | inl some_agent ↦
            rw (good, works, some_agent)
              (OneActive-insert_new now id i _ model _
                (updated_agents fails (end_agent now replaced "model_replaced") i s)
                (count-end_agent_self i now "model_replaced" s.agents replaced refl)
                (OneActive-end_agent i now replaced "model_replaced" s.agents refl h))
        | inr no_agent ↦ rw (good, works, no_agent) h
      ]
    ]
  ]

  OneActive-remove :
      (now : ℕ) (i : String) (s : Roster)
      → OneActive s.agents
      → OneActive (remove fails now i s).0.agents
  unfolding remove
  OneActive-remove now i s h = elim (Bool-cases (fails update_agents)) [
    | inl failed ↦ rw failed h
    | inr works ↦ elim (Option-cases (first (runs_in i) s.agents)) [
      | inl n ↦ rw (works, n) h
      | inr (a, e) ↦
          rw (works, e) (OneActive-end_agent i now removed "manual_removal" s.agents refl h)
    ]
  ]

  OneActive-move :
      (i : String) (body : Option String) (s : Roster)
      → OneActive s.agents
      → OneActive (move fails i body s).0.agents
  unfolding move
  OneActive-move i none s h = h
  OneActive-move i (some target) s h = elim (Bool-cases (is_empty target)) [
    | inl bad ↦ rw bad h
    | inr good ↦ rw good (OneActive-move_after i target s _ _ _ refl h)
  ]

-- A request to handlers/agent.go.
pub data Event : Type 0 where
  assigning replacing : (Call → Bool) → ℕ → String → String → Option String → Event
  removal : (Call → Bool) → ℕ → String → Event
  moving : (Call → Bool) → String → Option String → Event

pub step : Event → Roster → Roster
step (assigning fails now id i body) s = (assign fails now id i body s).0
step (replacing fails now id i body) s = (replace fails now id i body s).0
step (removal fails now i) s = (remove fails now i s).0
step (moving fails i body) s = (move fails i body s).0

pub run : List Event → Roster → Roster
run [] s = s
run (e ∷ events) s = run events (step e s)

OneActive-step : (e : Event) (s : Roster) → OneActive s.agents → OneActive (step e s).agents
unfolding step
OneActive-step (assigning fails now id i body) s h = OneActive-assign fails now id i body s h
OneActive-step (replacing fails now id i body) s h = OneActive-replace fails now id i body s h
OneActive-step (removal fails now i) s h = OneActive-remove fails now i s h
OneActive-step (moving fails i body) s h = OneActive-move fails i body s h

-- In any history of requests that assign, replace, remove and move agents, one after the other and
-- whichever statements fail, no workspace gets more than one active agent, if none had more at first.
pub run-OneActive :
    (events : List Event) (s : Roster) → OneActive s.agents → OneActive (run events s).agents
unfolding run
run-OneActive [] s h = h
run-OneActive (e ∷ events) s h = run-OneActive events (step e s) (OneActive-step e s h)
