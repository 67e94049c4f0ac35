-- ===== src/Tombstone/Tests.antt =====
-- A history that tries to bring `gone` back in every way.
use starfire_agent_team.Prelude.{ℕ, true, false, ◌≡◌, refl, some, List, [], ◌∷◌, ◌^◌}
use starfire_agent_team.Sql.{first}
use starfire_agent_team.World.Laws.{is_removed}
use starfire_agent_team.Samples.{sha, family}
use starfire_agent_team.WsAuth
use starfire_agent_team.Tombstone.{
  Step, registration, beat_of, card, deletion, expiry, container_sweep, remote_sweep,
  automatic_restart, run,
}
use starfire_agent_team.Tombstone.Laws.{run-removed}

abbrev history : List (ℕ × Step)
history =
    (
      200,
      registration (λ c. false) WsAuth.healthy 2 (some "fresh")
          (some (record { id = "gone"; url = "http://10.0.0.9:8000"; agent_card = "{}" })),
    )
    ∷ (
      201,
      beat_of (λ c. false) WsAuth.healthy "Bearer fresh"
          (some (record {
            workspace_id = "gone";
            error_rate = 2 ^ 1074;
            sample_error = "";
            active_tasks = 0;
            uptime_seconds = 1;
            current_task = "";
          })),
    )
    ∷ (
      202,
      card (λ c. false) WsAuth.healthy ""
          (some (record { workspace_id = "gone"; agent_card = "{}" })),
    )
    ∷ (203, automatic_restart (λ c. false) 5 true false "gone")
    ∷ (204, expiry false "ws:gone")
    ∷ (205, container_sweep false (λ i. false) (λ i. some false))
    ∷ (206, remote_sweep false (λ i. false) 90)
    ∷ (207, deletion (λ c. false) true 5 true "root")
    ∷ []

run-removed_example : is_removed "gone" (run sha history family) ≡ true
unfolding first
run-removed_example = run-removed sha history "gone" family refl
