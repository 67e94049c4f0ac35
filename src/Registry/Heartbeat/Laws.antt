-- ===== src/Registry/Heartbeat/Laws.antt =====
-- The status that a heartbeat leaves, and the tombstones that it keeps.
use starfire_agent_team.Prelude.{
  ℕ, String, Bool, true, false, ◌≡◌, refl, Option, none, some, arith, if◌then◌else◌, List, ap, ◌∙◌,
  ◌&&◌,
}
use starfire_agent_team.Sql.{first, update, apply_when}
use starfire_agent_team.Sql.Laws.{map_option}
use starfire_agent_team.World.StatusColumn.{Status, online, offline, degraded, is}
use starfire_agent_team.World.{Workspace, World, Response, has_id, workspace, record_and_broadcast}
use starfire_agent_team.World.Laws.{first-has_id-update, has_id_of_first}
use starfire_agent_team.WsAuth
use starfire_agent_team.Registry.Payload.{HeartbeatPayload}
use starfire_agent_team.Registry.Gate.{require_workspace_token}
use starfire_agent_team.Registry.Gate.Laws.{workspaces-require_workspace_token}
use starfire_agent_team.Registry.Heartbeat.{
  Call, is_high, is_low, set_status, write_transition, evaluate_status, beaten, task_updated, beat,
  after_gate, heartbeat,
}

-- No error rate is both high and low, so a workspace does not flap within one heartbeat.
pub not_high_and_low : (rate : ℕ) → is_high rate ≡ true → is_low rate ≡ true → ⊥
unfolding is_high is_low
not_high_and_low rate h l = ground arith

-- The status machine that a heartbeat drives.
abbrev pub next : ℕ → Status → Status
next rate online = if is_high rate then degraded else online
next rate degraded = if is_low rate then online else degraded
next rate offline = online
next rate s = s

abbrev pub status_of : Option Workspace → Option Status
status_of none = none
status_of (some r) = some r.status

abbrev pub map_status : (Status → Status) → Option Status → Option Status
map_status f none = none
map_status f (some s) = some (f s)

abbrev pub no_failure : Call → Bool
no_failure _ = false

-- What the writes do to the row that the status was read from.
row-write_transition :
    (now : ℕ) (p : HeartbeatPayload) (w : World) (r : Workspace)
    → first (has_id p.workspace_id) w.workspaces ≡ some r
    → (s : Status) → r.status ≡ s
    → status_of (first (has_id p.workspace_id) (write_transition no_failure now p s w).workspaces)
      ≡ some (next p.error_rate s)
unfolding write_transition record_and_broadcast
row-write_transition now p w r e online es = ground (
  arith,
  has_id_of_first p.workspace_id w.workspaces r e,
  first-has_id-update p.workspace_id (has_id p.workspace_id) (set_status degraded now) (λ r. refl)
      w.workspaces (some r) e,
)
row-write_transition now p w r e degraded es = ground (
  arith,
  has_id_of_first p.workspace_id w.workspaces r e,
  first-has_id-update p.workspace_id (has_id p.workspace_id) (set_status online now) (λ r. refl)
      w.workspaces (some r) e,
)
row-write_transition now p w r e offline es = ground (
  arith,
  has_id_of_first p.workspace_id w.workspaces r e,
  first-has_id-update p.workspace_id (λ r. has_id p.workspace_id r && is r.status offline)
      (set_status online now) (λ r. refl) w.workspaces (some r) e,
)
row-write_transition now p w r e _ es = ground (arith, ap status_of e)

row-evaluate_status :
    (now : ℕ) (p : HeartbeatPayload) (w : World) (o : Option Workspace)
    → first (has_id p.workspace_id) w.workspaces ≡ o
    → status_of (first (has_id p.workspace_id) (evaluate_status no_failure now p w).workspaces)
      ≡ map_status (next p.error_rate) (status_of o)
unfolding evaluate_status workspace
row-evaluate_status now p w none e = rw (e, evaluate_status) (ap status_of e)
row-evaluate_status now p w (some r) e =
    rw (e, evaluate_status) (row-write_transition now p w r e r.status refl)

-- An update that leaves ids and statuses alone shows the same status.
status_of-update :
    (i : String) (p : Workspace → Bool) (f : Workspace → Workspace)
    → ((r : Workspace) → (f r).id ≡ r.id)
    → ((r : Workspace) → (f r).status ≡ r.status)
    → (rows : List Workspace)
    → status_of (first (has_id i) (update p f rows)) ≡ status_of (first (has_id i) rows)
status_of-update i p f key same_status rows =
    ap status_of (first-has_id-update i p f key rows (first (has_id i) rows) refl)
    ∙ go (first (has_id i) rows)
  where
    go : (o : Option Workspace) → status_of (map_option (apply_when p f) o) ≡ status_of o
    go none = refl
    go (some r) = ground (arith, same_status r)

workspaces-task_updated :
    (before : String) (p : HeartbeatPayload) (w : World)
    → (task_updated no_failure before p w).workspaces ≡ w.workspaces
unfolding task_updated
workspaces-task_updated before p w = ground arith

status_of-after_gate :
    (now : ℕ) (p : HeartbeatPayload) (g : World × Option Response)
    → g.1 ≡ none
    → status_of (first (has_id p.workspace_id) (after_gate no_failure now p g).0.workspaces)
      ≡ map_status (next p.error_rate) (status_of (first (has_id p.workspace_id) g.0.workspaces))
unfolding after_gate beat
status_of-after_gate now p (w, some refused) pass = cc
status_of-after_gate now p (w, none) pass = rw workspaces-task_updated (
    row-evaluate_status now p _ _ refl
    ∙ ap (map_status (next p.error_rate)) (
        unfold beaten in
        status_of-update p.workspace_id _ (beaten now p) (λ r. refl) (λ r. refl) w.workspaces))

-- A heartbeat that the gate lets through, and of which no statement fails, moves the status of its
-- workspace by the status machine: online to degraded at an error rate of 0.5 and above, degraded
-- to online below 0.1, offline to online, and any other status stays.
pub status-heartbeat :
    (sha256 : String → String) (auth : WsAuth.Call → Bool) (now : ℕ) (header : String)
    (p : HeartbeatPayload) (w : World)
    → (require_workspace_token sha256 auth now header p.workspace_id w).1 ≡ none
    → status_of
        (workspace p.workspace_id (heartbeat sha256 no_failure auth now header (some p) w).0)
      ≡ map_status (next p.error_rate) (status_of (workspace p.workspace_id w))
unfolding heartbeat workspace
status-heartbeat sha256 auth now header p w pass =
    status_of-after_gate now p _ pass
    ∙ ap (λ rows. map_status (next p.error_rate) (status_of (first (has_id p.workspace_id) rows)))
        (workspaces-require_workspace_token sha256 auth now header p.workspace_id w)
