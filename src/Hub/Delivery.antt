-- ===== src/Hub/Delivery.antt =====
-- Who gets a broadcast.
use starfire_agent_team.Prelude.{
  ℕ, ◌≡◌, ◌≢◌, refl, String, Bool, true, false, ◌&&◌, ◌||◌, not, Option, none, some, List, [], ◌∷◌,
  ◌++◌, arith, eqb, ltb, any, length, if◌then◌else◌, Option-cases, ap, inl, inr,
}
use starfire_agent_team.Text.{is_empty}
use starfire_agent_team.World.{World}
use starfire_agent_team.Access.{Lookup, can_communicate}
use starfire_agent_team.Access.Laws.{Linked, can_communicate_iff, can_communicate_fail_closed}
use starfire_agent_team.Hub.{
  Client, Hub, WsMessage, store, registered, allows, buffer_size, wants, safe_send, offer, send_all,
  broadcast,
}
use starfire_agent_team.Hub.Invariant.{distinct, Reach, Reach-Inv, is_open}

module _ (checker : Option (String → String → Bool)) where
  send_all_lem :
      (msg : WsMessage) (t : String) (cs : List ℕ) (heap : ℕ → Client) (c : ℕ)
      → distinct cs ≡ true
      → send_all checker msg t cs heap c
        ≡ (if any (eqb c) cs then offer checker msg t (heap c) else heap c)
  unfolding send_all
  send_all_lem msg t [] heap c h = refl
  send_all_lem msg t (x ∷ xs) heap c h =
      ground (arith, send_all_lem msg t xs (store x (offer checker msg t (heap x)) heap) c)

  -- The client is on the map, sees the workspace of the message, and has room in its buffer.
  abbrev gets : WsMessage → ℕ → Hub → Bool
  gets msg c h =
      registered c h
      && (is_empty (h.heap c).workspace_id
          || (not (is_empty msg.workspace_id)
              && allows checker (h.heap c).workspace_id msg.workspace_id))
      && ltb (length (h.heap c).send) buffer_size

  offered :
      (msg : WsMessage) (t : String) (h : Hub) (c : ℕ)
      → distinct h.clients ≡ true
      → (registered c h ≡ true → (h.heap c).closed ≡ false)
      → (send_all checker msg t h.clients h.heap c).send
        ≡ (if gets msg c h then (h.heap c).send ++ t ∷ [] else (h.heap c).send)
  unfolding offer wants safe_send
  offered msg t h c each opened =
      rw (send_all_lem msg t h.clients h.heap c each) (ground (arith, opened))

  -- In every reachable state a message that can be encoded is put, once, into the channel of each
  -- registered client that has room for it and is a canvas client or, if the message names a
  -- workspace, one whose workspace the checker lets reach that workspace; no other channel changes.
  pub send-broadcast :
      (marshal : WsMessage → Option String) (msg : WsMessage) (t : String) {h : Hub} (c : ℕ)
      → Reach checker marshal h
      → marshal msg ≡ some t
      → ((broadcast checker marshal msg h).heap c).send
        ≡ (if gets msg c h then (h.heap c).send ++ t ∷ [] else (h.heap c).send)
  unfolding broadcast
  send-broadcast marshal msg t {h} c r e =
      let inv = Reach-Inv checker marshal r in
      rw (e, broadcast) (offered msg t h c inv.once_each (is_open c h inv))

  unchanged_none :
      (marshal : WsMessage → Option String) (msg : WsMessage) (h : Hub)
      → marshal msg ≡ none
      → broadcast checker marshal msg h ≡ h
  unfolding broadcast
  unchanged_none marshal msg h e = rw (e, broadcast) refl

-- With the access check as the checker, whichever of its queries fail, a broadcast changes the
-- channel of a workspace client only if its workspace may reach the one that the message is about.
pub broadcast_confined :
    (links : Lookup → Bool) (w : World) (marshal : WsMessage → Option String) (msg : WsMessage)
    {h : Hub} (c : ℕ)
    → Reach (some (λ a b. can_communicate links a b w)) marshal h
    → is_empty (h.heap c).workspace_id ≡ false
    → ((broadcast (some (λ a b. can_communicate links a b w)) marshal msg h).heap c).send
      ≢ (h.heap c).send
    → Linked w (h.heap c).workspace_id msg.workspace_id
broadcast_confined links w marshal msg {h} c r agent changed = elim (Option-cases (marshal msg)) [
  | inl e ↦ absurd (changed (ap (λ k. (k.heap c).send) (unchanged_none _ marshal msg h e)))
  | inr (t, e) ↦
      (can_communicate_iff w _ _).0
        (can_communicate_fail_closed links w _ _ (allowed t (send-broadcast _ marshal msg t c r e)))
]
  where
    allowed :
        (t : String)
        → ((broadcast (some (λ a b. can_communicate links a b w)) marshal msg h).heap c).send ≡ (
            if gets (some (λ a b. can_communicate links a b w)) msg c h
            then (h.heap c).send ++ t ∷ []
            else (h.heap c).send)
        → can_communicate links (h.heap c).workspace_id msg.workspace_id w ≡ true
    allowed t e = ground (arith, changed)
