-- ===== src/Channels/Inbound.antt =====
-- HandleInbound of channels/manager.go: a message from a chat goes to the workspace of the channel, and
-- the answer back to the chat. The proxy, and whether the texts parse as JSON, are parameters.
use starfire_agent_team.Prelude.{
  ℕ, String, Bool, true, ◌||◌, not, Option, none, some, List, [], ◌∷◌, if◌then◌else◌, ◌==◌, any,
  ltb, leb, concat,
}
use starfire_agent_team.Text.{is_empty}
use starfire_agent_team.Json.{
  Json, Items, Members, end, item, lookup, as_text, as_members, as_items,
}
use starfire_agent_team.World.{World}
use starfire_agent_team.Proxy.{Proxied}
use starfire_agent_team.Delegation.{body_of}
use starfire_agent_team.Channels.{
  Channel, InboundMessage, Turn, Switchboard, Call, send, has_adapter,
}
use starfire_agent_team.Channels.Manager.{
  history_key, load_history, append_history, count_message, announced, send_text, load_channel,
}

abbrev text_in : Option Members → Option String
text_in none = none
text_in (some ms) = as_text (lookup "text" ms)

abbrev or_option : Option String → Option String → Option String
or_option (some s) o = some s
or_option none o = o

-- The text of the first part that has one.
unfoldable pub first_part : Items → Option String
first_part end = none
first_part (item v vs) = or_option (text_in (as_members (some v))) (first_part vs)

abbrev pub parts_of : Option Members → Option String
parts_of none = none
parts_of (some ms) = elim (as_items (lookup "parts" ms)) [ none ↦ none | some vs ↦ first_part vs ]

unfoldable pub first_artifact : Items → Option String
unfolding first_part
first_artifact end = none
first_artifact (item v vs) = or_option (parts_of (as_members (some v))) (first_artifact vs)

abbrev artifacts_of : Members → Option String
artifacts_of ms = elim (as_items (lookup "artifacts" ms)) [
  | none ↦ none
  | some vs ↦ first_artifact vs
]

abbrev reply_of : Option Members → Option String
reply_of none = none
reply_of (some ms) = or_option (parts_of (some ms)) (artifacts_of ms)

abbrev result_of : Option Members → Option Members
result_of none = none
result_of (some ms) = as_members (lookup "result" ms)

abbrev text_or_empty : Option String → String
text_or_empty none = ""
text_or_empty (some s) = s

-- Decimal digits are the parameter `digits`, json.Unmarshal is `unmarshal`.
unfoldable pub extract_reply_text : (ℕ → String) → (String → Option Json) → String → ℕ → String
unfolding first_part first_artifact
extract_reply_text digits unmarshal body code =
    if ltb code 200 || leb 300 code
    then concat "Error: agent returned HTTP " (digits code)
    else text_or_empty (reply_of (result_of (as_members (unmarshal body))))

-- The allow list of a channel names users and chats; an empty one lets all through.
unfoldable pub is_allowed : List String → InboundMessage → Bool
is_allowed [] m = true
is_allowed (u ∷ users) m = any (λ x. x == m.user_id || x == m.chat_id) (u ∷ users)

pub data Outcome : Type 0 where
  blocked done proxy_failed no_adapter send_failed unknown_channel : Outcome

module _ (fails : Call → Bool) (digits : ℕ → String) (unmarshal : String → Option Json)
    (proxy : Channel → InboundMessage → List Turn → World → Proxied) where
  abbrev turn : ℕ → InboundMessage → String → Turn
  turn now m answer = record { user = m.username; message = m.text; reply = answer; time = now }

  abbrev pub finish : ℕ → Channel → InboundMessage → String → Switchboard → Switchboard × Outcome
  finish now c m answer s = (
    announced fails c (
        count_message fails now c.id (record s {
          histories =
              append_history fails now (history_key c.channel_type m.chat_id) (turn now m answer)
                s.histories;
        })),
    done,
  )

  unfoldable pub deliver :
      ℕ → Channel → InboundMessage → String → Switchboard → Switchboard × Outcome
  deliver now c m answer s =
      if not (has_adapter c.channel_type)
      then (s, no_adapter)
      else if is_empty answer
      then finish now c m answer s
      else if fails (send m.chat_id)
      then (s, send_failed)
      else finish now c m answer (send_text fails c m.chat_id answer s)

  abbrev pub answered : ℕ → Channel → InboundMessage → Proxied → Switchboard → Switchboard × Outcome
  answered now c m p s =
      if p.is_error
      then (record s { world = p.world }, proxy_failed)
      else deliver now c m
          (extract_reply_text digits unmarshal (body_of p.response) p.response.code)
          (record s { world = p.world })

  unfoldable pub handle_inbound : ℕ → Channel → InboundMessage → Switchboard → Switchboard × Outcome
  unfolding deliver is_allowed
  handle_inbound now c m s =
      if not (is_allowed c.allowed_users m)
      then (s, blocked)
      else answered now c m
          (proxy c m (load_history fails now (history_key c.channel_type m.chat_id) s.histories)
            s.world)
          s

  abbrev pub inbound_for : ℕ → InboundMessage → Option Channel → Switchboard → Switchboard × Outcome
  inbound_for now m none s = (s, unknown_channel)
  inbound_for now m (some c) s = handle_inbound now c m s

  -- The callback of a poller.
  unfoldable pub on_inbound_message :
      ℕ → String → InboundMessage → Switchboard → Switchboard × Outcome
  unfolding handle_inbound
  on_inbound_message now i m s = inbound_for now m (load_channel fails i s) s
