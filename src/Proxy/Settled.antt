-- ===== src/Proxy/Settled.antt =====
-- What the proxy does about an agent that does not answer.
use starfire_agent_team.Prelude.{
  ℕ, String, Bool, true, false, ◌≡◌, ◌≢◌, ◌&&◌, not, Option, none, some, if◌then◌else◌, ◌⊎◌, [],
  ◌∷◌,
}
use starfire_agent_team.World.StatusColumn.{provisioning, removed, one_of}
use starfire_agent_team.World.{World, Workspace, workspace}
use starfire_agent_team.Monitor.{offline_row}
use starfire_agent_team.Proxy.{Call, offline_write, GoError, Reply, unreachable, Proxied}

-- The agent's container is taken for dead.
abbrev pub Dead : Bool → Option Bool → Workspace → Type 0
Dead has_provisioner running r =
    (has_provisioner ≡ true) × (r.runtime ≢ some "external") × (running ≢ some true)

-- It is not.
abbrev pub Alive : Bool → Option Bool → Workspace → Type 0
Alive has_provisioner running r =
    (has_provisioner ≡ false) ⊎ (r.runtime ≡ some "external") ⊎ (running ≡ some true)

-- No request went out, or it was answered, or the container is not taken for dead.
abbrev pub Spared :
    Bool
    → Option Bool
    → (String → String → Reply)
    → Workspace
    → Option String
    → Option String
    → Type 0
Spared has_provisioner running agent r body posted =
    (posted ≡ none)
    ⊎ ((url text : String) × (posted ≡ some url)
        × (body ≡ some text)
        × ((e : GoError) → agent url text ≢ unreachable e))
    ⊎ Alive has_provisioner running r

module _ (fails : Call → Bool) (has_provisioner : Bool) (agent : String → String → Reply)
    (running : Option Bool) where
  -- The proxy either leaves the row alone, or takes the agent for dead.
  abbrev pub Settled : ℕ → String → Option String → Workspace → Proxied → Type 0
  Settled now i body r p =
      ((p.restarting ≡ false)
        × (workspace i p.world ≡ some r)
        × Spared has_provisioner running agent r body p.posted)
      ⊎ ((p.restarting ≡ true)
          × (p.response.code ≡ 503)
          × Dead has_provisioner running r
          × (workspace i p.world
              ≡ some (
                  if not (fails offline_write)
                    && not (one_of (removed ∷ provisioning ∷ []) r.status)
                  then offline_row now r
                  else r)))
