-- ===== src/Registry/Heartbeat/Tombstone.antt =====
-- The #73 guards of the heartbeat: a removed workspace stays removed, except through a write of
-- evaluateStatus that acts on a status read before the removal.
use starfire_agent_team.Prelude.{
  ℕ, String, Bool, true, false, ◌≡◌, refl, Option, none, some, arith, List, Option-cases,
  Bool-cases, inl, inr, ◌&&◌, not,
}
use starfire_agent_team.Sql.{first, update}
use starfire_agent_team.World.StatusColumn.{Status, online, offline, degraded, removed, is}
use starfire_agent_team.World.{Workspace, World, Response, has_id, workspace, record_and_broadcast}
use starfire_agent_team.World.Laws.{
  removed_at, removed_at-update, removed_at-write, is_removed, first-has_id-update, has_id_of_first,
}
use starfire_agent_team.WsAuth
use starfire_agent_team.Registry.Payload.{HeartbeatPayload}
use starfire_agent_team.Registry.Gate.{require_workspace_token}
use starfire_agent_team.Registry.Gate.Laws.{workspaces-require_workspace_token}
use starfire_agent_team.Registry.Heartbeat.Laws.{status_of}
use starfire_agent_team.Registry.Heartbeat.{
  Call, update_row, write_status, is_high, set_status, write_transition, evaluate_status, beaten,
  task_updated, beat, after_gate, heartbeat,
}

module _ (fails : Call → Bool) where
  -- A high error rate marks a workspace degraded even where it was removed after its status was
  -- read as online: that write does not test the status.
  pub stale_online_resurrects :
      (now : ℕ) (p : HeartbeatPayload) (w : World)
      → is_high p.error_rate ≡ true
      → fails write_status ≡ false
      → is_removed p.workspace_id w ≡ true
      → status_of (workspace p.workspace_id (write_transition fails now p online w)) ≡ some degraded
  unfolding write_transition workspace record_and_broadcast
  stale_online_resurrects now p w high works gone =
      elim (Option-cases (first (has_id p.workspace_id) w.workspaces)) [
        | inl e ↦ absurd (ground arith)
        | inr (r, e) ↦ ground (
          arith,
          has_id_of_first p.workspace_id w.workspaces r e,
          first-has_id-update p.workspace_id (has_id p.workspace_id) (set_status degraded now)
              (λ r. refl) w.workspaces (some r) e,
        )
      ]

  -- The recovery from offline names the status it flips, so it acts on no removed workspace.
  pub stale_offline_harmless :
      (now : ℕ) (p : HeartbeatPayload) (i : String) (w : World)
      → is_removed i w ≡ true
      → is_removed i (write_transition fails now p offline w) ≡ true
  unfolding write_transition record_and_broadcast
  stale_offline_harmless now p i w h = ground (
    arith,
    removed_at-update (λ r. has_id p.workspace_id r && is r.status offline) (set_status online now)
        (λ r. refl) (λ r q t. ground arith) i w.workspaces h,
  )

  fresh-removed :
      (now : ℕ) (p : HeartbeatPayload) (i : String) (w : World) (r : Workspace)
      → first (has_id p.workspace_id) w.workspaces ≡ some r
      → (s : Status) → r.status ≡ s
      → is_removed i w ≡ true
      → is_removed i (write_transition fails now p s w) ≡ true
  unfolding write_transition record_and_broadcast
  fresh-removed now p i w r e online es h = ground (
    arith,
    removed_at-write p.workspace_id (set_status degraded now) (λ r. refl) i w.workspaces r e
        (ground arith) h,
  )
  fresh-removed now p i w r e degraded es h = ground (
    arith,
    removed_at-write p.workspace_id (set_status online now) (λ r. refl) i w.workspaces r e
        (ground arith) h,
  )
  fresh-removed now p i w r e offline es h = stale_offline_harmless now p i w h
  fresh-removed now p i w r e _ es h = ground arith

  evaluate_status-removed :
      (now : ℕ) (p : HeartbeatPayload) (i : String) (w : World)
      → is_removed i w ≡ true
      → is_removed i (evaluate_status fails now p w) ≡ true
  unfolding evaluate_status workspace
  evaluate_status-removed now p i w h =
      elim (Option-cases (first (has_id p.workspace_id) w.workspaces)) [
        | inl e ↦ rw (e, evaluate_status) (ground arith)
        | inr (r, e) ↦ ground (arith, fresh-removed now p i w r e r.status refl h)
      ]

  workspaces-task_updated :
      (before : String) (p : HeartbeatPayload) (w : World)
      → (task_updated fails before p w).workspaces ≡ w.workspaces
  unfolding task_updated
  workspaces-task_updated before p w = ground arith

  removed-beaten :
      (now : ℕ) (p : HeartbeatPayload) (i : String) (rows : List Workspace)
      → removed_at i rows ≡ true
      → removed_at i
          (update (λ r. has_id p.workspace_id r && not (is r.status removed)) (beaten now p) rows)
        ≡ true
  unfolding beaten
  removed-beaten now p i rows h =
      removed_at-update _ (beaten now p) (λ r. refl) (λ r q t. ground arith) i rows h

  removed-after_gate :
      (now : ℕ) (p : HeartbeatPayload) (i : String) (g : World × Option Response)
      → removed_at i g.0.workspaces ≡ true
      → removed_at i (after_gate fails now p g).0.workspaces ≡ true
  unfolding after_gate beat
  removed-after_gate now p i (w, some refused) h = h
  removed-after_gate now p i (w, none) h = elim (Bool-cases (fails update_row)) [
    | inl e ↦ rw e h
    | inr e ↦
        rw (e, workspaces-task_updated)
          (evaluate_status-removed now p i _
            (ground (arith, removed-beaten now p i w.workspaces h)))
  ]

-- A removed workspace stays removed through any heartbeat of any workspace, whichever statements
-- fail.
pub heartbeat-removed :
    (sha256 : String → String) (fails : Call → Bool) (auth : WsAuth.Call → Bool) (now : ℕ)
    (header : String) (p : Option HeartbeatPayload) (i : String) (w : World)
    → is_removed i w ≡ true
    → is_removed i (heartbeat sha256 fails auth now header p w).0 ≡ true
unfolding heartbeat
heartbeat-removed sha256 fails auth now header none i w h = h
heartbeat-removed sha256 fails auth now header (some p) i w h =
    removed-after_gate fails now p i
      (require_workspace_token sha256 auth now header p.workspace_id w)
      (rw workspaces-require_workspace_token h)
