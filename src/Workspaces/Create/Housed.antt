-- ===== src/Workspaces/Create/Housed.antt =====
-- Create keeps the rows housed: their directories on the host are empty or pass the check.
use starfire_agent_team.Prelude.{
  ℕ, String, Bool, true, false, ◌≡◌, refl, inl, inr, Option, none, some, ◌&&◌, ◌||◌, not, all,
  arith, Bool-cases,
}
use starfire_agent_team.Text.{is_empty}
use starfire_agent_team.Sql.{update}
use starfire_agent_team.Sql.Laws.{all-append, all-update}
use starfire_agent_team.World.{
  Workspace, World, attempt, with_workspaces, with_cache, record_and_broadcast, has_id,
}
use starfire_agent_team.World.Redis.{Cache, cache_url}
use starfire_agent_team.Workspaces.Dir.{validate_workspace_dir}
use starfire_agent_team.Workspaces.Create.{
  Call, insert_row, announce, write_url, write_online, cache, announce_online, inserted,
  first_filled, validate_workspace_access, with_defaults, online_at, online_as_is, CreatePayload,
  create_checked, create, created_row, made_external,
}

pub unrefused : (a b : Bool) → (not a && not b) ≡ false → (a || b) ≡ true
unrefused a b h = ground (arith, h)

module _ (clean : String → String) where
  -- An empty path, or one that passes the check.
  abbrev pub is_dir_ok : String → Bool
  is_dir_ok dir = is_empty dir || validate_workspace_dir clean dir

  abbrev pub is_housed : Workspace → Bool
  is_housed r = elim r.workspace_dir [ none ↦ true | some dir ↦ is_dir_ok dir ]

  abbrev pub housed : World → Bool
  housed w = all is_housed w.workspaces

  pub housed-announced :
      (failed : Bool) (kind i : String) (w : World)
      → housed w ≡ true
      → housed (record_and_broadcast failed kind i w) ≡ true
  unfolding record_and_broadcast
  housed-announced failed kind i w h = elim (Bool-cases failed) [ inl e ↦ rw e h | inr e ↦ rw e h ]

  -- A write that keeps the directory.
  pub housed-write :
      (failed : Bool) (f : Workspace → Workspace) (i : String) (w : World)
      → ((r : Workspace) → is_housed r ≡ true → is_housed (f r) ≡ true)
      → housed w ≡ true
      → housed (attempt failed (with_workspaces (update (has_id i) f)) w) ≡ true
  housed-write failed f i w keeps h = elim (Bool-cases failed) [
    | inl e ↦ rw e h
    | inr e ↦ rw e (all-update is_housed (has_id i) f w.workspaces keeps h)
  ]

  pub housed-cached :
      (failed : Bool) (g : Cache → Cache) (w : World)
      → housed w ≡ true
      → housed (attempt failed (with_cache g) w) ≡ true
  housed-cached failed g w h = elim (Bool-cases failed) [ inl e ↦ rw e h | inr e ↦ rw e h ]

  module _ (fails : Call → Bool) (has_provisioner : Bool) where
    housed-made_external :
        (now : ℕ) (i : String) (p : CreatePayload) (w : World)
        → housed w ≡ true
        → housed (made_external fails has_provisioner now i p w) ≡ true
    unfolding made_external
    housed-made_external now i p w h = elim (Bool-cases (is_empty p.url)) [
      | inl bare ↦ rw bare (
          housed-announced (fails announce_online) "WORKSPACE_ONLINE" i _
            (housed-write (fails write_online) (online_as_is now) i w (λ r k. k) h))
      | inr named ↦ rw named (
          housed-announced (fails announce_online) "WORKSPACE_ONLINE" i _ (
            housed-cached (fails cache) (cache_url now i p.url) _
              (housed-write (fails write_url) (online_at now p.url) i w (λ r k. k) h)))
    ]

    housed-inserted :
        (now : ℕ) (i : String) (p : CreatePayload) (w : World)
        → is_dir_ok p.workspace_dir ≡ true
        → housed w ≡ true
        → housed (inserted fails has_provisioner now i p w) ≡ true
    unfolding created_row
    housed-inserted now i p w ok h =
        housed-announced (fails announce) "WORKSPACE_PROVISIONING" i _
          (all-append is_housed w.workspaces (created_row now i p) h row)
      where
        row : is_housed (created_row now i p) ≡ true
        row = elim (Bool-cases (is_empty p.workspace_dir)) [ inl e ↦ rw e refl | inr e ↦ rw e ok ]

    housed-create_checked :
        (now : ℕ) (i : String) (p : CreatePayload) (w : World)
        → housed w ≡ true
        → housed (create_checked fails has_provisioner clean now i p w).0 ≡ true
    unfolding create_checked created_row
    housed-create_checked now i p w h =
        elim (Bool-cases
          (not (is_empty p.workspace_dir) && not (validate_workspace_dir clean p.workspace_dir))) [
            | inl bad ↦ rw bad h
            | inr good ↦
                let stored =
                  housed-inserted now i p w
                    (unrefused (is_empty p.workspace_dir)
                      (validate_workspace_dir clean p.workspace_dir) good)
                    h in
                elim (Bool-cases (
                  validate_workspace_access (first_filled p.workspace_access "none")
                    p.workspace_dir)) [
                      | inr odd ↦ rw (good, odd) h
                      | inl even ↦ elim (Bool-cases (fails insert_row)) [
                        | inl lost ↦ rw (good, even, lost) h
                        | inr kept ↦ elim (Bool-cases p.external) [
                          | inl out ↦
                              rw (good, even, kept, out)
                                (housed-made_external now i p
                                  (inserted fails has_provisioner now i p w) stored)
                          | inr in_ ↦ rw (good, even, kept, in_) stored
                        ]
                      ]
                    ]
          ]

    pub housed-create :
        (config_of : String → Option String) (now : ℕ) (i : String) (body : Option CreatePayload)
        (w : World)
        → housed w ≡ true
        → housed (create fails has_provisioner config_of clean now i body w).0 ≡ true
    unfolding create with_defaults
    housed-create config_of now i none w h = h
    housed-create config_of now i (some p) w h = elim (Bool-cases (is_empty p.name)) [
      | inl e ↦ rw e h
      | inr e ↦ rw e (housed-create_checked now i (with_defaults config_of p) w h)
    ]
