-- ===== src/Workspaces/Delete/Laws.antt =====
-- What a delete leaves: tombstones for the whole subtree, and everything else as it was.
use starfire_agent_team.Prelude.{
  ◌<◌, ℕ, ◌≡◌, refl, String, Bool, true, false, ◌||◌, Option, none, some, List, [], ◌∷◌, any, arith,
  Option-cases, Bool-cases, inl, inr, eq_iff, ◌==◌, if◌then◌else◌, ap, ◌∙◌, subst, ◌⊎◌,
}
use starfire_agent_team.Sql.{first}
use starfire_agent_team.Sql.Laws.{map_option}
use starfire_agent_team.World.{Workspace, World, Response, has_id, workspace, record_and_broadcast}
use starfire_agent_team.World.Laws.{
  is_removed, removed_at-update, first-has_id-update, has_id_of_first,
}
use starfire_agent_team.WsAuth
use starfire_agent_team.WsAuth.{validate_token}
use starfire_agent_team.Workspaces.Tree.{descendants, children}
use starfire_agent_team.Workspaces.Tree.Laws.{Below, child, deeper, has, descendants_complete}
use starfire_agent_team.Workspaces.Tree.Ends.{IsRankedTo, descendants_total}
use starfire_agent_team.Workspaces.Delete.{
  Call, alive, ids, one_of_ids, set_removed, is_nil, mark_removed, tear_down, tear_down_all,
  cascade, found_below, delete,
}

abbrev pub no_failure : Call → Bool
no_failure _ = false

module _ (fails : Call → Bool) (docker : Bool) where
  workspaces-tear_down :
      (i : String) (w : World) → (tear_down fails docker i w).workspaces ≡ w.workspaces
  unfolding tear_down record_and_broadcast
  workspaces-tear_down i w = ground arith

  workspaces-tear_down_all :
      (is_ : List String) (w : World) → (tear_down_all fails docker is_ w).workspaces ≡ w.workspaces
  unfolding tear_down_all
  workspaces-tear_down_all [] w = refl
  workspaces-tear_down_all (i ∷ rest) w =
      workspaces-tear_down_all rest (tear_down fails docker i w) ∙ workspaces-tear_down i w

  tokens-tear_down : (i : String) (w : World) → (tear_down fails docker i w).tokens ≡ w.tokens
  unfolding tear_down record_and_broadcast
  tokens-tear_down i w = ground arith

  tokens-tear_down_all :
      (is_ : List String) (w : World) → (tear_down_all fails docker is_ w).tokens ≡ w.tokens
  unfolding tear_down_all
  tokens-tear_down_all [] w = refl
  tokens-tear_down_all (i ∷ rest) w =
      tokens-tear_down_all rest (tear_down fails docker i w) ∙ tokens-tear_down i w

  tokens-cascade :
      (now : ℕ) (i : String) (found : List Workspace) (w : World)
      → (cascade fails docker now i found w).0.tokens ≡ w.tokens
  unfolding cascade mark_removed
  tokens-cascade now i found w =
      tokens-tear_down i _ ∙ tokens-tear_down_all (ids found) _ ∙ ground arith

  -- A delete returns with the tokens as they were, on every branch.
  tokens-delete :
      (confirm : Bool) (fuel now : ℕ) (i : String) (w v : World) (answer : Response)
      → delete fails docker fuel now confirm i w ≡ some (v, answer)
      → v.tokens ≡ w.tokens
  unfolding delete
  tokens-delete confirm fuel now i w v answer h =
      go (found_below fails docker fuel i (children alive i w.workspaces) w) refl
    where
      go :
          (o : Option (List Workspace))
          → found_below fails docker fuel i (children alive i w.workspaces) w ≡ o
          → v.tokens ≡ w.tokens
      go none e = ground arith
      go (some found) e = ground (arith, tokens-cascade now i found w)

cascade-removed :
    (fails : Call → Bool) (docker : Bool) (now : ℕ) (i j : String) (found : List Workspace)
    (w : World)
    → is_removed j w ≡ true
    → is_removed j (cascade fails docker now i found w).0 ≡ true
unfolding cascade mark_removed set_removed
cascade-removed fails docker now i j found w h =
    rw (workspaces-tear_down, workspaces-tear_down_all)
      (ground (
        arith,
        removed_at-update (one_of_ids (i ∷ ids found)) (set_removed now) (λ r. refl) (λ r q t. refl)
            j w.workspaces h,
      ))

-- A workspace of the table is marked by the statement exactly if its id is listed.
row-mark_removed :
    (docker : Bool) (now : ℕ) (all : List String) (j : String) (w : World) (o : Option Workspace)
    → first (has_id j) w.workspaces ≡ o
    → first (has_id j) (mark_removed no_failure docker now all w).workspaces
      ≡ map_option (λ r. if any (λ i. j == i) all then set_removed now r else r) o
unfolding mark_removed set_removed
row-mark_removed docker now all j w none e =
    first-has_id-update j (one_of_ids all) (set_removed now) (λ r. refl) w.workspaces none e
row-mark_removed docker now all j w (some r) e =
    first-has_id-update j (one_of_ids all) (set_removed now) (λ r. refl) w.workspaces (some r) e
    ∙ ground (
      arith,
      (eq_iff r.id j).0 (has_id_of_first j w.workspaces r e),
      ap (λ k. any (λ i. k == i) all) ((eq_iff r.id j).0 (has_id_of_first j w.workspaces r e)),
    )

any-ids : (j : String) (rows : List Workspace) → any (λ i. j == i) (ids rows) ≡ has j rows
any-ids j [] = refl
any-ids j (r ∷ rows) = ground (arith, any-ids j rows, eq_iff j r.id, eq_iff r.id j)

-- The workspace itself or one below it.
abbrev pub InSubtree : World → String → String → Type 0
InSubtree w i j = (j ≡ i) ⊎ Below alive w.workspaces i j

delete-inversion :
    (docker : Bool) (fuel now : ℕ) (i : String) (w : World) (out : World × Response)
    → delete no_failure docker fuel now true i w ≡ some out
    → (found : List Workspace) × (found_below no_failure docker fuel i
          (children alive i w.workspaces)
          w
        ≡ some found)
      × (cascade no_failure docker now i found w ≡ out)
unfolding delete
delete-inversion docker fuel now i w out h =
    go (found_below no_failure docker fuel i (children alive i w.workspaces) w) refl (ground arith)
  where
    go :
        (o : Option (List Workspace))
        → found_below no_failure docker fuel i (children alive i w.workspaces) w ≡ o
        → (elim o [ none ↦ none | some found ↦ some (cascade no_failure docker now i found w) ])
          ≡ some out
        → (found : List Workspace) × (found_below no_failure docker fuel i
              (children alive i w.workspaces)
              w
            ≡ some found)
          × (cascade no_failure docker now i found w ≡ out)
    go none e k = cc
    go (some found) e k = (found, e, cc)

row-cascade :
    (docker : Bool) (now : ℕ) (i j : String) (found : List Workspace) (w : World)
    → first (has_id j) (cascade no_failure docker now i found w).0.workspaces
      ≡ map_option
          (λ r. if j == i || has j found then set_removed now r else r)
          (first (has_id j) w.workspaces)
unfolding cascade
row-cascade docker now i j found w =
    ap (first (has_id j)) (
      workspaces-tear_down no_failure docker i _
      ∙ workspaces-tear_down_all no_failure docker (ids found) _)
    ∙ row-mark_removed docker now (i ∷ ids found) j w (first (has_id j) w.workspaces) refl
    ∙ ap
        (λ b.
          map_option (λ r. if j == i || b then set_removed now r else r)
            (first (has_id j) w.workspaces))
        (any-ids j found)

not-has_nil : (j : String) (xs : List Workspace) → is_nil xs ≡ true → has j xs ≡ true → ⊥
not-has_nil j [] e h = cc
not-has_nil j (x ∷ xs) e h = cc

-- A leaf has nothing below it.
Below-leaf :
    (rows : List Workspace) {i j : String}
    → is_nil (children alive i rows) ≡ true
    → Below alive rows i j
    → ⊥
Below-leaf rows {i} e (child j c) = not-has_nil j (children alive i rows) e c
Below-leaf rows e (deeper q j b c) = Below-leaf rows e b

found_below_complete :
    (docker : Bool) (fuel : ℕ) (i : String) (w : World) (found : List Workspace) {j : String}
    → found_below no_failure docker fuel i (children alive i w.workspaces) w ≡ some found
    → Below alive w.workspaces i j
    → has j found ≡ true
unfolding found_below
found_below_complete docker fuel i w found e b =
    elim (Bool-cases (is_nil (children alive i w.workspaces))) [
      | inl leaf ↦ absurd (Below-leaf w.workspaces leaf b)
      | inr inner ↦ descendants_complete fuel alive w.workspaces i found (rw inner at e) b
    ]

in_subtree :
    (docker : Bool) (fuel : ℕ) (i : String) (w : World) (found : List Workspace) {j : String}
    → found_below no_failure docker fuel i (children alive i w.workspaces) w ≡ some found
    → InSubtree w i j
    → (j == i || has j found) ≡ true
in_subtree docker fuel i w found {j} e (inl same) = ground (arith, eq_iff j i)
in_subtree docker fuel i w found {j} e (inr b) =
    ground (arith, found_below_complete docker fuel i w found e b)

removed_by_delete :
    (docker : Bool) (fuel now : ℕ) (i j : String) (w v : World) (answer : Response) (r : Workspace)
    → delete no_failure docker fuel now true i w ≡ some (v, answer)
    → InSubtree w i j
    → workspace j w ≡ some r
    → is_removed j v ≡ true
unfolding workspace set_removed
removed_by_delete docker fuel now i j w v answer r h below e =
    let (found, all_found, out) = delete-inversion docker fuel now i w (v, answer) h in
    let covered = in_subtree docker fuel i w found all_found below in
    let row = row-cascade docker now i j found w in
    subst (λ (x : World × Response). is_removed j x.0 ≡ true) out (rw (row, e, covered))

delete_total :
    (docker : Bool) (fuel now : ℕ) (i : String) (w : World) (rank : String → ℕ) (bound : ℕ)
    → IsRankedTo rank bound w.workspaces
    → bound < fuel
    → (out : World × Response) × (delete no_failure docker fuel now true i w ≡ some out)
unfolding delete found_below
delete_total docker fuel now i w rank bound acyclic enough =
    elim (Bool-cases (is_nil (children alive i w.workspaces))) [
      | inl leaf ↦ (cascade no_failure docker now i [] w, ground (arith, leaf))
      | inr inner ↦ elim (Option-cases (descendants fuel alive i w.workspaces)) [
        | inl endless ↦
            absurd (descendants_total rank bound alive i w.workspaces fuel acyclic enough endless)
        | inr (all, e) ↦ (cascade no_failure docker now i all w, ground (arith, inner, e))
      ]
    ]

-- On a table whose parents form no cycle, and with fuel above the largest rank, a confirmed delete
-- of which no statement fails returns, and then the workspace, if it is on file, and every
-- workspace on file that is below it, at any depth, by rows that are not yet removed, is removed.
pub delete_subtree :
    (docker : Bool) (fuel now : ℕ) (i j : String) (w : World) (r : Workspace) (rank : String → ℕ)
    (bound : ℕ)
    → IsRankedTo rank bound w.workspaces
    → bound < fuel
    → InSubtree w i j
    → workspace j w ≡ some r
    → (out : World × Response) × (delete no_failure docker fuel now true i w ≡ some out)
      × (is_removed j out.0 ≡ true)
delete_subtree docker fuel now i j w r rank bound acyclic enough below e =
    let (out, returned) = delete_total docker fuel now i w rank bound acyclic enough in
    (out, returned, removed_by_delete docker fuel now i j w out.0 out.1 r returned below e)

-- Whoever presents a token gets the same answer after a delete as before it: the tokens of a
-- deleted workspace stay valid.
pub validate_token-delete :
    (fails : Call → Bool) (docker confirm : Bool) (fuel now : ℕ) (i : String) (w v : World)
    (answer : Response) (sha256 : String → String) (auth : WsAuth.Call → Bool) (later : ℕ)
    (j plaintext : String)
    → delete fails docker fuel now confirm i w ≡ some (v, answer)
    → (validate_token sha256 auth later j plaintext v).1
      ≡ (validate_token sha256 auth later j plaintext w).1
unfolding validate_token
validate_token-delete fails docker confirm fuel now i w v answer sha256 auth later j plaintext h =
    ground (arith, tokens-delete fails docker confirm fuel now i w v answer h)

-- A delete of any workspace keeps every removed workspace removed, whichever statements fail.
pub delete-removed :
    (fails : Call → Bool) (docker confirm : Bool) (fuel now : ℕ) (i j : String) (w v : World)
    (answer : Response)
    → delete fails docker fuel now confirm i w ≡ some (v, answer)
    → is_removed j w ≡ true
    → is_removed j v ≡ true
unfolding delete
delete-removed fails docker confirm fuel now i j w v answer e h =
    elim (Option-cases (found_below fails docker fuel i (children alive i w.workspaces) w)) [
      | inl endless ↦ ground (arith, endless)
      | inr (found, stops) ↦ ground (arith, stops, cascade-removed fails docker now i j found w h)
    ]
