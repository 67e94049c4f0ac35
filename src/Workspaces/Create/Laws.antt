-- ===== src/Workspaces/Create/Laws.antt =====
-- What Create accepts and stores, and what the container sweep makes of an external workspace.
use starfire_agent_team.Prelude.{
  ℕ, String, Bool, true, false, ◌≡◌, refl, ◌∙◌, inl, inr, Option, some, List, [], ◌∷◌, ◌++◌, ◌&&◌,
  not, if◌then◌else◌, any, arith, Bool-cases, eq_refl, ap, or_else,
}
use starfire_agent_team.Text.{is_empty}
use starfire_agent_team.Sql.{first, update}
use starfire_agent_team.Sql.Laws.{first-none_of_any, first-append_last}
use starfire_agent_team.World.{Workspace, World, workspace, has_id}
use starfire_agent_team.World.Laws.{
  first-update_self, workspaces-record_and_broadcast, workspaces-with_cache,
}
use starfire_agent_team.World.StatusColumn.{online}
use starfire_agent_team.World.Unique.{PrimaryKey, PrimaryKey-append, PrimaryKey-update}
use starfire_agent_team.World.Redis.{cache_url}
use starfire_agent_team.Monitor.{Checker, offline_row, sweep_online_workspaces, runs_in_docker}
use starfire_agent_team.Monitor.Laws.{row-sweep_online_workspaces}
use starfire_agent_team.Workspaces.Dir.{validate_workspace_dir}
use starfire_agent_team.Workspaces.Create.{
  Call, insert_row, announce, write_url, write_online, cache, announce_online, CreatePayload,
  first_filled, validate_workspace_access, created_row, online_at, online_as_is, with_defaults,
  inserted, made_external, create_checked, create,
}

-- What a payload must be for its row to be inserted.
abbrev pub Accepted : (String → String) → CreatePayload → Type 0
Accepted clean p =
    ((not (is_empty p.workspace_dir) && not (validate_workspace_dir clean p.workspace_dir)) ≡ false)
    × (validate_workspace_access (first_filled p.workspace_access "none") p.workspace_dir ≡ true)

-- What puts an external workspace online.
abbrev pub promoted : ℕ → CreatePayload → Workspace → Workspace
promoted now p = if is_empty p.url then online_as_is now else online_at now p.url

key-promoted : (now : ℕ) (p : CreatePayload) (r : Workspace) → (promoted now p r).id ≡ r.id
key-promoted now p r = elim (Bool-cases (is_empty p.url)) [ inl e ↦ rw e refl | inr e ↦ rw e refl ]

abbrev table_after : ℕ → String → CreatePayload → List Workspace → List Workspace
table_after now i p rows =
    if p.external
    then update (has_id i) (promoted now p) (rows ++ created_row now i p ∷ [])
    else rows ++ created_row now i p ∷ []

row_last :
    (now : ℕ) (i : String) (p : CreatePayload) (rows : List Workspace)
    → any (has_id i) rows ≡ false
    → first (has_id i) (rows ++ created_row now i p ∷ []) ≡ some (created_row now i p)
unfolding created_row
row_last now i p rows free =
    first-append_last (has_id i) rows (created_row now i p)
    ∙ rw (first-none_of_any (has_id i) rows free, eq_refl i) refl

row-table_after :
    (now : ℕ) (i : String) (p : CreatePayload) (rows : List Workspace)
    → any (has_id i) rows ≡ false
    → first (has_id i) (table_after now i p rows)
      ≡ some (if p.external then promoted now p (created_row now i p) else created_row now i p)
unfolding created_row
row-table_after now i p rows free = elim (Bool-cases p.external) [
  | inl e ↦
      rw e
        (first-update_self i (promoted now p) (key-promoted now p) _ _ (row_last now i p rows free))
  | inr e ↦ rw e (row_last now i p rows free)
]

PrimaryKey-table_after :
    (now : ℕ) (i : String) (p : CreatePayload) (rows : List Workspace)
    → any (has_id i) rows ≡ false
    → PrimaryKey rows
    → PrimaryKey (table_after now i p rows)
unfolding created_row
PrimaryKey-table_after now i p rows free u =
    let appended = PrimaryKey-append rows (created_row now i p) free u in
    elim (Bool-cases p.external) [
      | inl e ↦ rw e (PrimaryKey-update (has_id i) (promoted now p) _ (key-promoted now p) appended)
      | inr e ↦ rw e appended
    ]

module _ (fails : Call → Bool) (has_provisioner : Bool) (clean : String → String) where
  accepted :
      (now : ℕ) (i : String) (p : CreatePayload) (w : World)
      → (create_checked fails has_provisioner clean now i p w).1.code ≡ 201
      → Accepted clean p × (fails insert_row ≡ false)
  unfolding create_checked
  accepted now i p w h =
      elim (Bool-cases
        (not (is_empty p.workspace_dir) && not (validate_workspace_dir clean p.workspace_dir))) [
          | inl bad ↦ absurd (ground (arith, rw bad at h))
          | inr good ↦
              elim (Bool-cases (
                validate_workspace_access (first_filled p.workspace_access "none")
                  p.workspace_dir)) [
                    | inr odd ↦ absurd (ground (arith, rw (good, odd) at h))
                    | inl even ↦ elim (Bool-cases (fails insert_row)) [
                      | inl lost ↦ absurd (ground (arith, rw (good, even, lost) at h))
                      | inr kept ↦ ((good, even), kept)
                    ]
                  ]
        ]

  rows-inserted :
      (now : ℕ) (i : String) (p : CreatePayload) (w : World)
      → (inserted fails has_provisioner now i p w).workspaces
        ≡ w.workspaces ++ created_row now i p ∷ []
  rows-inserted now i p w =
      workspaces-record_and_broadcast (fails announce) "WORKSPACE_PROVISIONING" i _

  rows-made_external :
      (now : ℕ) (i : String) (p : CreatePayload) (w : World)
      → fails write_url ≡ false
      → fails write_online ≡ false
      → (made_external fails has_provisioner now i p w).workspaces
        ≡ update (has_id i) (promoted now p) w.workspaces
  unfolding made_external
  rows-made_external now i p w url live =
      workspaces-record_and_broadcast (fails announce_online) "WORKSPACE_ONLINE" i _
      ∙ elim (Bool-cases (is_empty p.url)) [
        | inl bare ↦ rw (bare, live) refl
        | inr named ↦
            rw named (workspaces-with_cache (fails cache) (cache_url now i p.url) _ ∙ rw url refl)
      ]

  -- The table after a 201.
  rows-create_checked :
      (now : ℕ) (i : String) (p : CreatePayload) (w : World)
      → Accepted clean p
      → fails insert_row ≡ false
      → fails write_url ≡ false
      → fails write_online ≡ false
      → (create_checked fails has_provisioner clean now i p w).0.workspaces
        ≡ table_after now i p w.workspaces
  unfolding create_checked
  rows-create_checked now i p w (good, even) kept url live = elim (Bool-cases p.external) [
    | inl out ↦
        rw (good, even, kept, out)
          (rows-made_external now i p (inserted fails has_provisioner now i p w) url live
            ∙ ap (update (has_id i) (promoted now p)) (rows-inserted now i p w))
    | inr inside ↦ rw (good, even, kept, inside) (rows-inserted now i p w)
  ]

  -- The row after a 201, and the table's key.
  pub row-create :
      (config_of : String → Option String) (now : ℕ) (i : String) (p : CreatePayload) (w : World)
      → (create fails has_provisioner config_of clean now i (some p) w).1.code ≡ 201
      → any (has_id i) w.workspaces ≡ false
      → fails write_url ≡ false
      → fails write_online ≡ false
      → let q = with_defaults config_of p in
        let out = (create fails has_provisioner config_of clean now i (some p) w).0 in
        Accepted clean q
        × (workspace i out
            ≡ some
                (if q.external then promoted now q (created_row now i q) else created_row now i q))
        × (PrimaryKey w.workspaces → PrimaryKey out.workspaces)
  unfolding create workspace
  row-create config_of now i p w made free url live = elim (Bool-cases (is_empty p.name)) [
    | inl bare ↦ absurd (ground (arith, rw bare at made))
    | inr named ↦
        let q = with_defaults config_of p in
        let (ok, kept) = accepted now i q w (rw named at made) in
        let table = rows-create_checked now i q w ok kept url live in
        (
          ok,
          rw (named, table) (row-table_after now i q w.workspaces free),
          λ u. rw (named, table) (PrimaryKey-table_after now i q w.workspaces free u),
        )
  ]

default_runtime :
    (config_of : String → Option String) (p : CreatePayload)
    → p.runtime ≡ ""
    → p.template ≡ ""
    → (with_defaults config_of p).runtime ≡ "langgraph"
unfolding with_defaults
default_runtime config_of p bare plain = rw (bare, plain) refl

external_kept :
    (config_of : String → Option String) (p : CreatePayload)
    → (with_defaults config_of p).external ≡ p.external
unfolding with_defaults
external_kept config_of p = refl

runs-promoted :
    (now : ℕ) (i : String) (p : CreatePayload)
    → p.runtime ≡ "langgraph"
    → runs_in_docker (promoted now p (created_row now i p)) ≡ true
unfolding created_row
runs-promoted now i p e = elim (Bool-cases (is_empty p.url)) [
  | inl bare ↦ rw (bare, e) refl
  | inr named ↦ rw (named, e) refl
]

runtime-promoted :
    (now : ℕ) (i : String) (p : CreatePayload)
    → p.runtime ≡ "langgraph"
    → (promoted now p (created_row now i p)).runtime ≡ some "langgraph"
unfolding created_row
runtime-promoted now i p e = elim (Bool-cases (is_empty p.url)) [
  | inl bare ↦ rw (bare, e) refl
  | inr named ↦ rw (named, e) refl
]

status-promoted :
    (now : ℕ) (i : String) (p : CreatePayload)
    → (promoted now p (created_row now i p)).status ≡ online
unfolding created_row
status-promoted now i p = elim (Bool-cases (is_empty p.url)) [
  | inl bare ↦ rw bare refl
  | inr named ↦ rw named refl
]

chosen :
    (external : Bool) (x y : Workspace)
    → external ≡ true
    → some (if external then x else y) ≡ some x
chosen external x y e = rw e refl

taken :
    (later : ℕ) (external broken : Bool) (check : Option Bool) (x y : Workspace)
    → external ≡ true
    → runs_in_docker x ≡ true
    → check ≡ some false
    → broken ≡ false
    → some (
        if runs_in_docker (if external then x else y) && not (or_else true check) && not broken
        then offline_row later (if external then x else y)
        else (if external then x else y))
      ≡ some (offline_row later x)
taken later external broken check x y out docker stopped writes =
    rw (out, stopped, writes) (rw docker refl)

-- A creation answers 201 for an external workspace without a runtime and a template, under an id
-- that is not on file, on a table of unique ids, and its writes of the URL and of the status
-- succeed. Then the workspace is stored online with the runtime langgraph, and a sweep of
-- containers whose query and update succeed, and to which the check of Docker says that its
-- container does not run, takes it offline.
pub external_swept :
    (fails : Call → Bool) (has_provisioner : Bool) (clean : String → String)
    (config_of : String → Option String) (now later : ℕ) (i : String) (p : CreatePayload)
    (sweep_fails : String → Bool) (checker : Checker) (w : World)
    → (create fails has_provisioner config_of clean now i (some p) w).1.code ≡ 201
    → any (has_id i) w.workspaces ≡ false
    → fails write_url ≡ false
    → fails write_online ≡ false
    → PrimaryKey w.workspaces
    → p.external ≡ true
    → p.runtime ≡ ""
    → p.template ≡ ""
    → checker i ≡ some false
    → sweep_fails i ≡ false
    → let out = (create fails has_provisioner config_of clean now i (some p) w).0 in
      (r : Workspace) × (workspace i out ≡ some r)
      × (r.runtime ≡ some "langgraph")
      × (r.status ≡ online)
      × (workspace i (sweep_online_workspaces false sweep_fails checker later out).0
          ≡ some (offline_row later r))
external_swept fails has_provisioner clean config_of now later i p sweep_fails checker w made free
      url live key out bare plain stopped writes =
    let q = with_defaults config_of p in
    let (ok, row, keys) =
      row-create fails has_provisioner clean config_of now i p w made free url live in
    let ext = external_kept config_of p ∙ out in
    let lang = default_runtime config_of p bare plain in
    (
      promoted now q (created_row now i q),
      row ∙ chosen q.external _ _ ext,
      runtime-promoted now i q lang,
      status-promoted now i q,
      row-sweep_online_workspaces sweep_fails checker later _ i _ (keys key) row
          ∙ taken later q.external (sweep_fails i) (checker i) _ _ ext (runs-promoted now i q lang)
              stopped writes,
    )
