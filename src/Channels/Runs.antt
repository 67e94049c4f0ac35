-- ===== src/Channels/Runs.antt =====
-- Histories of requests, messages and hooks that the manager of the channels answers.
use starfire_agent_team.Prelude.{
  ℕ, ◌≡◌, refl, String, Bool, true, false, ◌||◌, not, Option, none, some, List, [], ◌∷◌, any, all,
  ◌&&◌, ◌==◌, Bool-cases, inl, inr, arith,
}
use starfire_agent_team.Text.{is_empty}
use starfire_agent_team.Sql.{select, delete}
use starfire_agent_team.Json.{Json}
use starfire_agent_team.World.{World}
use starfire_agent_team.Proxy.{Proxied}
use starfire_agent_team.Channels.{
  Channel, InboundMessage, Turn, Switchboard, Poller, Call, token_rows, reload_rows, same_id, send,
  has_adapter, text_of, split_chat_ids,
}
use starfire_agent_team.Channels.Manager.{
  pause_pollers_for_token, resume_pollers, history_key, load_history, load_channel, running,
  disable_channel_by_chat_id, send_to, send_outbound,
}
use starfire_agent_team.Channels.Inbound.{
  is_allowed, finish, deliver, answered, handle_inbound, inbound_for, on_inbound_message,
}
use starfire_agent_team.Channels.Handlers.{
  CreateBody, UpdateBody, create_channel, update_channel, delete_channel, discover,
}
use starfire_agent_team.Channels.Polling.{
  Sound-reload, polled, Synced, Sound, Sound-same, Sound-create_channel, Sound-update_channel,
  Sound-delete_channel, Sound-disable, Sound-count_message, Sound-send_all,
}

module _ (fails : Call → Bool) where
  Sound-send_to :
      (now : ℕ) (body : String) (o : Option Channel) (s : Switchboard)
      → Sound s
      → Sound (send_to fails now body o s).0
  Sound-send_to now body none s h = h
  Sound-send_to now body (some c) s h =
      elim (Bool-cases
        (not (has_adapter c.channel_type) || is_empty (text_of "chat_id" c.config))) [
          | inl refused ↦ rw refused h
          | inr goes ↦ rw goes (
              Sound-same _ _ refl refl (
                Sound-count_message fails now c.id _
                  (Sound-send_all fails c (split_chat_ids (text_of "chat_id" c.config)) body s h)))
        ]

  module _ (digits : ℕ → String) (unmarshal : String → Option Json)
      (proxy : Channel → InboundMessage → List Turn → World → Proxied) where
    Sound-finish :
        (now : ℕ) (c : Channel) (m : InboundMessage) (answer : String) (s : Switchboard)
        → Sound s
        → Sound (finish fails digits unmarshal proxy now c m answer s).0
    Sound-finish now c m answer s h =
        Sound-same _ _ refl refl (Sound-count_message fails now c.id _ (Sound-same s _ refl refl h))

    Sound-deliver :
        (now : ℕ) (c : Channel) (m : InboundMessage) (answer : String) (s : Switchboard)
        → Sound s
        → Sound (deliver fails digits unmarshal proxy now c m answer s).0
    unfolding deliver
    Sound-deliver now c m answer s h = elim (Bool-cases (has_adapter c.channel_type)) [
      | inr e1 ↦ rw e1 h
      | inl e1 ↦ elim (Bool-cases (is_empty answer)) [
        | inl e2 ↦ rw (e1, e2) (Sound-finish now c m answer s h)
        | inr e2 ↦ elim (Bool-cases (fails (send m.chat_id))) [
          | inl e3 ↦ rw (e1, e2, e3) h
          | inr e3 ↦ rw (e1, e2, e3) (Sound-finish now c m answer _ (Sound-same s _ refl refl h))
        ]
      ]
    ]

    Sound-answered :
        (now : ℕ) (c : Channel) (m : InboundMessage) (p : Proxied) (s : Switchboard)
        → Sound s
        → Sound (answered fails digits unmarshal proxy now c m p s).0
    Sound-answered now c m p s h = elim (Bool-cases p.is_error) [
      | inl e ↦ rw e (Sound-same s _ refl refl h)
      | inr e ↦ rw e (Sound-deliver now c m _ _ (Sound-same s _ refl refl h))
    ]

    Sound-handle_inbound :
        (now : ℕ) (c : Channel) (m : InboundMessage) (s : Switchboard)
        → Sound s
        → Sound (handle_inbound fails digits unmarshal proxy now c m s).0
    unfolding handle_inbound
    Sound-handle_inbound now c m s h = elim (Bool-cases (is_allowed c.allowed_users m)) [
      | inr e ↦ rw e h
      | inl e ↦ rw e (
          Sound-answered now c m
            (proxy c m (load_history fails now (history_key c.channel_type m.chat_id) s.histories)
              s.world)
            s h)
    ]

    Sound-inbound_for :
        (now : ℕ) (m : InboundMessage) (o : Option Channel) (s : Switchboard)
        → Sound s
        → Sound (inbound_for fails digits unmarshal proxy now m o s).0
    Sound-inbound_for now m none s h = h
    Sound-inbound_for now m (some c) s h = Sound-handle_inbound now c m s h

delete_none :
    (p : Poller → Bool) (pollers : List Poller) → any p pollers ≡ false → delete p pollers ≡ pollers
unfolding delete
delete_none p [] h = refl
delete_none p (q ∷ pollers) h = ground (arith, delete_none p pollers)

-- A discovery starts again what it has stopped.
Sound-discover :
    (fails : Call → Bool)
    → fails reload_rows ≡ false
    → (failed : Option String) (body : Option (String × String)) (s : Switchboard) → Sound s
    → Sound (discover fails failed body s).0
unfolding discover resume_pollers pause_pollers_for_token
Sound-discover fails works failed none s h = h
Sound-discover fails works failed (some (channel_type, token)) s h =
    elim (Bool-cases (is_empty token)) [
      | inl e1 ↦ rw e1 h
      | inr e1 ↦ elim (Bool-cases (has_adapter channel_type)) [
        | inr e2 ↦ rw (e1, e2) h
        | inl e2 ↦ elim (Bool-cases (fails token_rows)) [
          | inl e3 ↦ rw (e1, e2, e3) h
          | inr e3 ↦ elim (Bool-cases (any paused s.pollers)) [
            | inl e4 ↦
                rw (e1, e2, e3, e4)
                  (Sound-reload fails (record s { pollers = delete paused s.pollers }) works
                    h.known)
            | inr e4 ↦
                rw (e1, e2, e3, e4)
                  (Sound-same s (record s { pollers = delete paused s.pollers }) refl
                    (delete_none paused s.pollers e4) h)
          ]
        ]
      ]
    ]
  where
    with_token : Channel → Bool
    with_token c = c.enabled && text_of "bot_token" c.config == token

    paused : Poller → Bool
    paused p = any (same_id p.id) (select with_token s.channels)

-- What the manager answers: requests to handlers/channels.go, the removal of a bot from a chat, and
-- messages to and from a chat: from a poller (inbound) and from the webhook (hooked), which has chosen
-- the channel. Each has its own failures.
pub data Event : Type 0 where
  creation : ℕ → String → String → Option CreateBody → Event
  change : ℕ → String → String → Option UpdateBody → Event
  deletion : String → String → Event
  kick : Bool → ℕ → String → Event
  discovery : Option String → Option (String × String) → Event
  hooked :
      (ℕ → String)
      → (String → Option Json)
      → (Channel → InboundMessage → List Turn → World → Proxied)
      → ℕ
      → Channel
      → InboundMessage
      → Event
  outbound : ℕ → String → String → Event
  inbound :
      (ℕ → String)
      → (String → Option Json)
      → (Channel → InboundMessage → List Turn → World → Proxied)
      → ℕ
      → String
      → InboundMessage
      → Event

pub step : (Call → Bool) → Event → Switchboard → Switchboard
step fails (creation now id i body) s = (create_channel fails now id i body s).0
step fails (change now id i body) s = (update_channel fails now id i body s).0
step fails (deletion id i) s = (delete_channel fails id i s).0
step fails (kick has_column now chat) s = disable_channel_by_chat_id fails has_column now chat s
step fails (discovery failed body) s = (discover fails failed body s).0
step fails (hooked digits unmarshal proxy now c m) s =
    (handle_inbound fails digits unmarshal proxy now c m s).0
step fails (outbound now i body) s = (send_outbound fails now i body s).0
step fails (inbound digits unmarshal proxy now i m) s =
    (on_inbound_message fails digits unmarshal proxy now i m s).0

pub run : List ((Call → Bool) × Event) → Switchboard → Switchboard
run [] s = s
run ((fails, e) ∷ events) s = run events (step fails e s)

-- No event fails to read the channels again.
abbrev pub reloads : List ((Call → Bool) × Event) → Bool
reloads events = all (λ e. not (e.0 reload_rows)) events

Sound-step :
    (fails : Call → Bool) (e : Event) (s : Switchboard)
    → fails reload_rows ≡ false
    → Sound s
    → Sound (step fails e s)
unfolding step send_outbound on_inbound_message
Sound-step fails (creation now id i body) s works h =
    Sound-create_channel fails works now id i body s h
Sound-step fails (change now id i body) s works h =
    Sound-update_channel fails works now id i body s h
Sound-step fails (deletion id i) s works h = Sound-delete_channel fails works id i s h
Sound-step fails (kick has_column now chat) s works h =
    Sound-disable fails works has_column now chat s h
Sound-step fails (discovery failed body) s works h = Sound-discover fails works failed body s h
Sound-step fails (hooked digits unmarshal proxy now c m) s works h =
    Sound-handle_inbound fails digits unmarshal proxy now c m s h
Sound-step fails (outbound now i body) s works h =
    Sound-send_to fails now body (load_channel fails i s) s h
Sound-step fails (inbound digits unmarshal proxy now i m) s works h =
    Sound-inbound_for fails digits unmarshal proxy now m (load_channel fails i s) s h

Sound-run :
    (events : List ((Call → Bool) × Event)) (s : Switchboard)
    → reloads events ≡ true
    → Sound s
    → Sound (run events s)
unfolding run
Sound-run [] s works h = h
Sound-run ((fails, e) ∷ events) s works h =
    Sound-run events (step fails e s) (ground arith) (Sound-step fails e s (ground arith) h)

-- The map of pollers that the manager keeps is a view of the table of channels. In any history of
-- requests that create, change, delete and discover channels, removals of the bot from a chat, and
-- messages from pollers, webhooks and to chats, each as one step, in which the manager can read the
-- table whenever it reloads it, whatever else fails, and from a state where this holds and each
-- channel on file has an adapter, the map has an entry for an id exactly if an enabled channel with
-- that id and an adapter is on file. Whether the polling of an entry still goes on is not said.
pub run-Synced :
    (events : List ((Call → Bool) × Event)) (s : Switchboard) (i : String)
    → reloads events ≡ true
    → Sound s
    → running i (run events s).pollers ≡ any (polled i) (run events s).channels
unfolding Synced
run-Synced events s i works h = (Sound-run events s works h).synced i
