-- ===== src/Hub/Tests.antt =====
-- Runs of the hub: a canvas client and two agents of the family in Samples.
use starfire_agent_team.Prelude.{ℕ, String, Bool, true, ◌≡◌, refl, ◌≢◌, Option, some, [], ◌∷◌}
use starfire_agent_team.Access.{can_communicate, healthy}
use starfire_agent_team.Samples.{family}
use starfire_agent_team.Hub.{Client, Hub, WsMessage, new_hub, connect, broadcast}
use starfire_agent_team.Hub.Invariant.{Inv, connected, sent, Reach, start, next, Reach-Inv}
use starfire_agent_team.Hub.Delivery.{send-broadcast}

abbrev blank : ℕ → Client
blank c = record { workspace_id = ""; send = []; closed = true }

abbrev by_family : Option (String → String → Bool)
by_family = some (λ a b. can_communicate healthy a b family)

abbrev encoded : WsMessage → Option String
encoded msg = some msg.event

abbrev of_leaf : WsMessage
of_leaf = record { event = "TASK_UPDATED"; workspace_id = "leaf"; payload = "{}" }

abbrev joined : Hub
joined = connect "root" (connect "mid" (connect "" (new_hub blank)))

joined_reach : Reach by_family encoded joined
unfolding new_hub connect
joined_reach =
    next (next (next (start blank) (connected _ "" refl)) (connected _ "mid" refl))
      (connected _ "root" refl)

Reach-Inv_example : Inv (broadcast by_family encoded of_leaf joined)
Reach-Inv_example = Reach-Inv by_family encoded (next joined_reach (sent joined of_leaf))

send-broadcast_example :
    ((broadcast by_family encoded of_leaf joined).heap 1).send ≡ "TASK_UPDATED" ∷ []
unfolding connect new_hub can_communicate starfire_agent_team.World.workspace
    starfire_agent_team.Sql.first
send-broadcast_example = send-broadcast by_family encoded of_leaf "TASK_UPDATED" 1 joined_reach refl

mid_hears : ((broadcast by_family encoded of_leaf joined).heap 1).send ≢ (joined.heap 1).send
unfolding broadcast connect new_hub can_communicate starfire_agent_team.World.workspace
    starfire_agent_team.Sql.first
mid_hears e = cc

root_hears_nothing : ((broadcast by_family encoded of_leaf joined).heap 2).send ≡ []
unfolding broadcast connect new_hub can_communicate starfire_agent_team.World.workspace
    starfire_agent_team.Sql.first
root_hears_nothing = refl
