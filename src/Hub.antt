-- ===== src/Hub.antt =====
-- ws/hub.go: the hub of WebSocket clients, with the connect handler of handlers/socket.go that feeds
-- it. A client is known by its pointer, an index into the heap; its connection is left out. `none` is
-- the panic on a second close of a channel.
pub mod Invariant
pub mod Delivery
mod Tests
use starfire_agent_team.Prelude.{
  ℕ, suc, ◌+◌, ◌≡◌, String, Bool, true, false, ◌&&◌, ◌||◌, not, Option, none, some, List, [], ◌∷◌,
  ◌++◌, if◌then◌else◌, eqb, ltb, any, length,
}
use starfire_agent_team.Text.{is_empty}

-- A client with its channel Send: what waits in the buffer, and whether it is closed.
pub record Client : Type 0 where
  pub workspace_id : String
  pub send : List String
  pub closed : Bool

-- How far the function that closeOnce runs for Close has come: not called, `done` closed and the lock
-- asked for, finished.
pub data Closing : Type 0 where
  open_hub waiting finished : Closing

pub record Hub : Type 0 where
  pub heap : ℕ → Client
  pub allocated : ℕ
  pub clients : List ℕ
  pub running : Bool  -- Run is in its loop
  pub closing : Closing

pub record WsMessage : Type 0 where
  pub event : String
  pub workspace_id : String
  pub payload : String

-- make(chan []byte, 256)
abbrev pub buffer_size : ℕ
buffer_size = 256

abbrev pub store {ℓ} : {A : Type ℓ} → ℕ → A → (ℕ → A) → ℕ → A
store i a f j = if eqb i j then a else f j

abbrev pub registered : ℕ → Hub → Bool
registered c h = any (eqb c) h.clients

abbrev pub without : ℕ → List ℕ → List ℕ
without c [] = []
without c (d ∷ ds) = let rest = without c ds in if eqb c d then rest else d ∷ rest

-- close(client.Send)
unfoldable pub close_send : ℕ → Hub → Option Hub
close_send c h =
    if (h.heap c).closed
    then none
    else some (record h { heap = store c (record (h.heap c) { closed = true }) h.heap })

-- The connect handler allocates a client, and Run takes it from the channel Register.
unfoldable pub connect : String → Hub → Hub
connect workspace_id h = record h {
  heap =
      store h.allocated (record { workspace_id = workspace_id; send = []; closed = false }) h.heap;
  allocated = h.allocated + 1;
  clients = h.allocated ∷ h.clients;
}

-- Run takes a client from the channel Unregister.
unfoldable pub unregister : ℕ → Hub → Option Hub
unfolding close_send
unregister c h =
    if registered c h then close_send c (record h { clients = without c h.clients }) else some h

unfoldable pub safe_send : String → Client → Client × Bool
safe_send text client =
    if client.closed || not (ltb (length client.send) buffer_size)
    then (client, false)
    else (record client { send = client.send ++ text ∷ [] }, true)

module _ (can_communicate : Option (String → String → Bool)) where
  -- the checker is not nil and allows it
  abbrev pub allows : String → String → Bool
  allows a b = elim can_communicate [ none ↦ false | some check ↦ check a b ]

  -- Canvas clients get everything, workspace clients what the checker allows.
  unfoldable pub wants : WsMessage → Client → Bool
  wants msg client =
      is_empty client.workspace_id
      || (not (is_empty msg.workspace_id) && allows client.workspace_id msg.workspace_id)

  unfoldable pub offer : WsMessage → String → Client → Client
  unfolding wants safe_send
  offer msg text client = if wants msg client then (safe_send text client).0 else client

  -- The loop over the map, in the order in which the range happens to visit the clients.
  unfoldable pub send_all : WsMessage → String → List ℕ → (ℕ → Client) → ℕ → Client
  unfolding offer
  send_all msg text [] heap = heap
  send_all msg text (c ∷ cs) heap = send_all msg text cs (store c (offer msg text (heap c)) heap)

  -- `marshal` is json.Marshal, `none` for its error.
  unfoldable pub broadcast : (WsMessage → Option String) → WsMessage → Hub → Hub
  unfolding send_all
  broadcast marshal msg h = elim (marshal msg) [
    | none ↦ h
    | some text ↦ record h { heap = send_all msg text h.clients h.heap }
  ]

unfoldable pub disconnect_all : List ℕ → Hub → Option Hub
unfolding close_send
disconnect_all [] h = some h
disconnect_all (c ∷ cs) h = elim (close_send c h) [
  | none ↦ none
  | some closed ↦ disconnect_all cs (record closed { clients = without c closed.clients })
]

-- Close up to the lock: closeOnce lets the first caller in, who closes `done`.
unfoldable pub signal_done : Hub → Hub
signal_done h = elim h.closing [ open_hub ↦ record h { closing = waiting } | _ ↦ h ]

-- The rest of Close, under the lock.
unfoldable pub disconnect : Hub → Option Hub
unfolding disconnect_all
disconnect h = disconnect_all h.clients (record h { closing = finished })

-- Run sees that `done` is closed and returns.
unfoldable pub leave : Hub → Hub
leave h = record h { running = false }

abbrev pop {ℓ} : {A : Type ℓ} → List A → List A
pop [] = []
pop (m ∷ ms) = ms

-- WritePump receives one message from the channel of its client.
unfoldable pub receive : ℕ → Hub → Hub
receive c h = record h { heap = store c (record (h.heap c) { send = pop (h.heap c).send }) h.heap }

unfoldable pub new_hub : (ℕ → Client) → Hub
new_hub heap = record {
  heap = heap;
  allocated = 0;
  clients = [];
  running = true;
  closing = open_hub;
}
