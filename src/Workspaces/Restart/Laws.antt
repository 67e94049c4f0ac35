-- ===== src/Workspaces/Restart/Laws.antt =====
-- Which workspaces a restart touches.
use starfire_agent_team.Prelude.{
  ◌≤◌, Bool-cases, [], ◌∷◌, ℕ, String, Bool, true, false, ◌≡◌, refl, ◌≢◌, Option, none, some, arith,
  Option-cases, inl, inr,
}
use starfire_agent_team.Sql.{first}
use starfire_agent_team.World.StatusColumn.{removed, is}
use starfire_agent_team.World.{
  error, reply, Workspace, World, Response, has_id, workspace, record_and_broadcast,
}
use starfire_agent_team.World.Laws.{
  is_removed, removed_at-write, first-has_id-update, has_id_of_first,
}
use starfire_agent_team.Workspaces.Tree.{Query, paused_parent, is_parent_paused}
use starfire_agent_team.Workspaces.Tree.Ancestors.{
  PausedAbove, is_parent_paused_found, distance, no_query_fails,
}
use starfire_agent_team.Workspaces.Restart.{
  walk, lookup, Call, changed_runtime, reset_row, store_runtime, reprovision, restart,
  restart_by_id,
}

module _ (fails : Call → Bool) where
  removed-reprovision :
      (now : ℕ) (i j : String) (w : World) (r : Workspace)
      → workspace i w ≡ some r
      → is r.status removed ≡ false
      → is_removed j w ≡ true
      → is_removed j (reprovision fails now i w) ≡ true
  unfolding reprovision record_and_broadcast workspace
  removed-reprovision now i j w r e alive h = ground (
    arith,
    removed_at-write i (reset_row now) (unfold reset_row in λ q. refl) j w.workspaces r e alive h,
  )

  -- An automatic restart brings no removed workspace back.
  pub restart_by_id-removed :
      (fuel now : ℕ) (docker busy : Bool) (i j : String) (w v : World)
      → restart_by_id fails fuel now docker busy i w ≡ some v
      → is_removed j w ≡ true
      → is_removed j v ≡ true
  unfolding restart_by_id
  restart_by_id-removed fuel now docker busy i j w v e h = elim (Option-cases (workspace i w)) [
    | inl missing ↦ ground (arith, missing)
    | inr (r, found) ↦ ground (arith, found, removed-reprovision now i j w r found)
  ]

module _ (fails : Call → Bool) (walks : (q : Query) → fails (walk q) ≡ false) where
  -- Where no query of the walk fails, an automatic restart of a workspace with a paused ancestor returns and changes nothing.
  pub restart_by_id_below_paused :
      (fuel now : ℕ) (docker busy : Bool) (name i : String) (w : World)
      (above : PausedAbove w name i)
      → distance above ≤ fuel
      → restart_by_id fails fuel now docker busy i w ≡ some w
  unfolding restart_by_id
  restart_by_id_below_paused fuel now docker busy name i w above enough =
      elim (Option-cases (workspace i w)) [
        | inl missing ↦ ground (arith, missing)
        | inr (r, found) ↦ ground (
          arith,
          found,
          is_parent_paused_found (λ q. fails (walk q)) fuel w name above walks enough,
        )
      ]

  -- Where no query of the walk fails, a manual restart of a workspace with a paused ancestor returns, changes nothing, and is refused.
  pub restart_below_paused :
      (fuel now : ℕ) (docker : Bool) (config : Option String) (name i : String) (w : World)
      (above : PausedAbove w name i)
      → distance above ≤ fuel
      → (answer : Response) × (restart fails fuel now docker config i w ≡ some (w, answer))
        × (answer.code ≢ 200)
  unfolding restart
  restart_below_paused fuel now docker config name i w above enough =
      elim (Bool-cases (fails lookup)) [
        | inl broken ↦ (error 500 "lookup failed", ground (arith, broken), ground arith)
        | inr works ↦ elim (Option-cases (workspace i w)) [
          | inl missing ↦
              (error 404 "workspace not found", ground (arith, works, missing), ground arith)
          | inr (r, found) ↦ (
            error 409 (paused_parent name),
            ground (
              arith,
              works,
              found,
              is_parent_paused_found (λ q. fails (walk q)) fuel w name above walks enough,
            ),
            ground arith,
          )
        ]
      ]

abbrev pub no_failure : Call → Bool
no_failure _ = false

alive-reprovision :
    (now : ℕ) (i : String) (w : World) → is_removed i (reprovision no_failure now i w) ≡ false
unfolding reprovision record_and_broadcast
alive-reprovision now i w = go (first (has_id i) w.workspaces) refl
  where
    go :
        (o : Option Workspace)
        → first (has_id i) w.workspaces ≡ o
        → is_removed i (reprovision no_failure now i w) ≡ false
    go none e = ground (
      arith,
      first-has_id-update i (has_id i) (reset_row now) (unfold reset_row in λ q. refl) w.workspaces
          none e,
    )
    go (some r) e = ground (
      arith,
      first-has_id-update i (has_id i) (reset_row now) (unfold reset_row in λ q. refl) w.workspaces
          (some r) e,
      has_id_of_first i w.workspaces r e,
    )

-- A manual restart that no ancestor blocks, and of which no statement fails, brings a removed
-- workspace back: unlike the automatic one it does not look at the status.
pub restart_resurrects :
    (fuel now : ℕ) (config : Option String) (i : String) (w : World)
    → is_removed i w ≡ true
    → is_parent_paused no_query_fails fuel i w ≡ some none
    → (out : World × Response) × (restart no_failure fuel now true config i w ≡ some out)
      × (out.1.code ≡ 200)
      × (is_removed i out.0 ≡ false)
unfolding restart workspace
restart_resurrects fuel now config i w gone clear =
    elim (Option-cases (first (has_id i) w.workspaces)) [
      | inl missing ↦ absurd (ground (arith, missing))
      | inr (r, found) ↦
          let v = store_runtime no_failure i (changed_runtime config r) w in
          (
            (reprovision no_failure now i v, reply 200 (("status", "provisioning") ∷ [])),
            ground (arith, found, clear),
            refl,
            alive-reprovision now i v,
          )
    ]
