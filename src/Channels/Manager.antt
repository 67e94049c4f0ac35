-- ===== src/Channels/Manager.antt =====
-- channels/manager.go: which pollers run, conversations in Redis, and messages to a chat. Each call of
-- the manager is one step, as under its mutex; a map of pollers is a list of them.
use starfire_agent_team.Prelude.{
  ℕ, ◌+◌, String, Bool, true, false, ◌&&◌, ◌||◌, not, Option, none, some, List, [], ◌∷◌, ◌++◌,
  if◌then◌else◌, ◌==◌, any, ltb, concat,
}
use starfire_agent_team.Text.{is_empty}
use starfire_agent_team.Sql.{first, select, update, delete}
use starfire_agent_team.Sql.Order.{limit}
use starfire_agent_team.Json.{member, text}
use starfire_agent_team.World.{record_and_broadcast}
use starfire_agent_team.Channels.{
  Channel, Turn, Stored, Poller, Switchboard, Call, reload_rows, channel_row, stats, announce,
  token_rows, range, push, trim, expire, send, kick_row, has_adapter, same_id, text_of,
  split_chat_ids,
}

abbrev pub max_history_entries : ℕ
max_history_entries = 10

abbrev pub history_ttl : ℕ
history_ttl = 86400

abbrev pub running : String → List Poller → Bool
running i pollers = any (λ p. p.id == i) pollers

abbrev pub is_enabled : Channel → Bool
is_enabled c = c.enabled

-- Pollers of channels that are gone or disabled stop.
abbrev pub stop_others : List Channel → List Poller → List Poller
stop_others desired pollers = select (λ p. any (same_id p.id) desired) pollers

abbrev pub poller_of : Channel → Poller
poller_of c = record { id = c.id; config = member "_channel_id" (text c.id) c.config }

abbrev pub start_one : Channel → List Poller → List Poller
start_one c pollers =
    if running c.id pollers || not (has_adapter c.channel_type)
    then pollers
    else pollers ++ poller_of c ∷ []

unfoldable pub start_new : List Channel → List Poller → List Poller
start_new [] pollers = pollers
start_new (c ∷ desired) pollers = start_new desired (start_one c pollers)

-- `true` for a key whose deadline has passed.
abbrev expired : ℕ → Option ℕ → Bool
expired now none = false
expired now (some t) = not (ltb now t)

-- What a key holds at a time.
abbrev pub live : ℕ → Option Stored → Option Stored
live now none = none
live now (some h) = if expired now h.deadline then none else some h

abbrev pub turns_of : Option Stored → List Turn
turns_of none = []
turns_of (some h) = h.turns

-- LPUSH, LTRIM key 0 9, EXPIRE
abbrev pub pushed : Turn → Option Stored → Stored
pushed e none = record { turns = e ∷ []; deadline = none }
pushed e (some h) = record h { turns = e ∷ h.turns }

abbrev pub trimmed : Stored → Stored
trimmed h = record h { turns = limit max_history_entries h.turns }

abbrev pub expiring : ℕ → Stored → Stored
expiring now h = record h { deadline = some (now + history_ttl) }

abbrev pub when_stored : Bool → (Stored → Stored) → Option Stored → Option Stored
when_stored failed f none = none
when_stored failed f (some h) = some (if failed then h else f h)

abbrev pub put_history : String → Option Stored → (String → Option Stored) → String → Option Stored
put_history key value m k = if k == key then value else m k

abbrev pub history_key : String → String → String
history_key channel_type chat =
    concat "channel:" (concat channel_type (concat ":" (concat chat ":history")))

module _ (fails : Call → Bool) where
  unfoldable pub reload : Switchboard → Switchboard
  unfolding start_new
  reload s = if fails reload_rows then s else record s {
    pollers =
        start_new (select is_enabled s.channels)
          (stop_others (select is_enabled s.channels) s.pollers);
  }

  unfoldable pub load_history : ℕ → String → (String → Option Stored) → List Turn
  load_history now key m =
      if fails range then [] else limit max_history_entries (turns_of (live now (m key)))

  unfoldable pub append_history :
      ℕ → String → Turn → (String → Option Stored) → String → Option Stored
  append_history now key e m =
      let old = live now (m key) in
      let longer = (if fails push then old else some (pushed e old)) in
      put_history key
        (when_stored (fails expire) (expiring now) (when_stored (fails trim) trimmed longer)) m

  -- The hook of /reset
  unfoldable pub clear_chat_history : String → (String → Option Stored) → String → Option Stored
  clear_chat_history chat m = put_history (history_key "telegram" chat) none m

  -- The hook for a bot that was removed from a chat. Its statement names a column `config`; whether
  -- there is one is the argument.
  unfoldable pub disable_channel_by_chat_id : Bool → ℕ → String → Switchboard → Switchboard
  unfolding reload
  disable_channel_by_chat_id has_column now chat s =
      let hit = λ (c : Channel).
        c.channel_type == "telegram" && c.enabled && text_of "chat_id" c.config == chat in
      (if not has_column || fails kick_row || not (any hit s.channels)
        then s
        else reload (record s {
          channels = update hit (λ c. record c { enabled = false; updated_at = now }) s.channels;
        }))

  abbrev pub count_message : ℕ → String → Switchboard → Switchboard
  count_message now i s = if fails stats then s else record s {
    channels =
        update (same_id i)
          (λ c. record c {
            last_message_at = some now;
            message_count = c.message_count + 1;
            updated_at = now;
          })
          s.channels;
  }

  abbrev pub announced : Channel → Switchboard → Switchboard
  announced c s = record s {
    world = record_and_broadcast (fails announce) "CHANNEL_MESSAGE" c.workspace_id s.world;
  }

  abbrev pub send_text : Channel → String → String → Switchboard → Switchboard
  send_text c chat body s = if fails (send chat) then s else record s {
    sent = s.sent ++ record { channel_id = c.id; chat_id = chat; text = body } ∷ [];
  }

  unfoldable pub send_all : Channel → List String → String → Switchboard → Switchboard
  send_all c [] body s = s
  send_all c (chat ∷ chats) body s = send_all c chats body (send_text c chat body s)

  abbrev pub load_channel : String → Switchboard → Option Channel
  load_channel i s = if fails channel_row then none else first (same_id i) s.channels

  abbrev pub send_to : ℕ → String → Option Channel → Switchboard → Switchboard × Bool
  send_to now body none s = (s, false)
  send_to now body (some c) s =
      if not (has_adapter c.channel_type) || is_empty (text_of "chat_id" c.config)
      then (s, false)
      else (
        announced c (
            count_message now c.id
              (send_all c (split_chat_ids (text_of "chat_id" c.config)) body s)),
        true,
      )

  -- `false` for an error
  unfoldable pub send_outbound : ℕ → String → String → Switchboard → Switchboard × Bool
  unfolding send_all
  send_outbound now i body s = send_to now body (load_channel i s) s

  -- The pollers of a bot token stop. The result says whether `resume` does more than nothing.
  unfoldable pub pause_pollers_for_token : String → Switchboard → Switchboard × Bool
  pause_pollers_for_token token s =
      let with_token = λ (c : Channel). c.enabled && text_of "bot_token" c.config == token in
      let ids = select with_token s.channels in
      let paused = λ (p : Poller). any (same_id p.id) ids in
      (if is_empty token || fails token_rows
        then (s, false)
        else (record s { pollers = delete paused s.pollers }, any paused s.pollers))

  -- What PausePollersForToken returns, once it is called.
  unfoldable pub resume_pollers : Switchboard × Bool → Switchboard
  unfolding reload
  resume_pollers (s, any_paused) = if any_paused then reload s else s
