-- ===== src/Channels/Handlers.antt =====
-- handlers/channels.go: the channels of a workspace, and the webhook that chats post to.
use starfire_agent_team.Prelude.{
  ℕ, String, Bool, true, false, ◌&&◌, ◌||◌, not, Option, none, some, List, [], ◌∷◌, ◌++◌,
  if◌then◌else◌, ◌==◌, any, or_else, ltb, concat, map, ◌-◌,
}
use starfire_agent_team.Text.{is_empty, contains, text_length, take_chars, drop_chars}
use starfire_agent_team.Sql.{first, select, update, delete}
use starfire_agent_team.Sql.Order.{order_asc}
use starfire_agent_team.Json.{Members, empty, member, text}
use starfire_agent_team.World.{Response, reply, error, has_id}
use starfire_agent_team.Channels.{
  Channel, InboundMessage, Switchboard, Call, list_rows, insert_row, modify_row, remove_row,
  lookup_rows, has_adapter, text_of, validate_config, matches_chat_id,
}
use starfire_agent_team.Channels.Manager.{
  is_enabled, reload, send_outbound, pause_pollers_for_token, resume_pollers,
}

pub record CreateBody : Type 0 where
  pub channel_type : String
  pub config : Members
  pub allowed_users : List String
  pub enabled : Option Bool

-- A field that is not sent is `none`.
pub record UpdateBody : Type 0 where
  pub config : Option Members
  pub allowed_users : Option (List String)
  pub enabled : Option Bool

-- The first and last four bytes of a bot token, which Telegram writes in ASCII
unfoldable pub masked : String → String
masked token =
    if ltb 8 (text_length token)
    then concat (take_chars 4 token) (concat "..." (drop_chars (text_length token - 4) token))
    else "***"

-- config["bot_token"] = masked
unfoldable pub mask_token : Members → Members
mask_token empty = empty
mask_token (member k v ms) =
    let rest = mask_token ms in
    (if k == "bot_token"
      then member k (text (masked (text_of "bot_token" (member k v empty)))) rest
      else member k v rest)

abbrev in_workspace : String → Channel → Bool
in_workspace i c = c.workspace_id == i

abbrev pub row_of : String → String → Channel → Bool
row_of id i c = c.id == id && c.workspace_id == i

abbrev shown : Channel → Channel
shown c = record c { config = mask_token c.config }

unfoldable pub created : ℕ → String → String → CreateBody → Channel
created now id i b = record {
  id = id;
  workspace_id = i;
  channel_type = b.channel_type;
  config = b.config;
  enabled = or_else true b.enabled;
  allowed_users = b.allowed_users;
  last_message_at = none;
  message_count = 0;
  created_at = now;
  updated_at = now;
}

-- COALESCE
unfoldable pub changed : ℕ → UpdateBody → Channel → Channel
changed now b c = record c {
  config = or_else c.config b.config;
  allowed_users = or_else c.allowed_users b.allowed_users;
  enabled = or_else c.enabled b.enabled;
  updated_at = now;
}

abbrev pub same_type : String → String → Channel → Bool
same_type i channel_type c = c.workspace_id == i && c.channel_type == channel_type

module _ (fails : Call → Bool) where
  -- `none` for the answer 500
  unfoldable pub list_channels : String → Switchboard → Option (List Channel)
  list_channels i s =
      if fails list_rows
      then none
      else some (map shown (order_asc (λ c. c.created_at) (select (in_workspace i) s.channels)))

  -- The insert fails for a workspace that is not on file, and where it has a channel of the type.
  abbrev pub can_insert : String → CreateBody → Switchboard → Bool
  can_insert i b s =
      not (fails insert_row)
      && any (has_id i) s.world.workspaces
      && not (any (same_type i b.channel_type) s.channels)

  -- The new id is an argument; `none` is a body that does not parse.
  unfoldable pub create_channel :
      ℕ → String → String → Option CreateBody → Switchboard → Switchboard × Response
  create_channel now id i none s = (s, error 400 "invalid JSON")
  create_channel now id i (some b) s =
      if is_empty b.channel_type
      then (s, error 400 "channel_type is required")
      else if not (has_adapter b.channel_type)
      then (s, error 400 (concat "unsupported channel_type: " b.channel_type))
      else if not (validate_config b.config)
      then (s, error 400 "invalid config")
      else if not (can_insert i b s)
      then (s, error 500 "failed to create channel")
      else (
        reload fails (record s { channels = s.channels ++ created now id i b ∷ [] }),
        reply 201 (("id", id) ∷ ("channel_type", b.channel_type) ∷ []),
      )

  unfoldable pub update_channel :
      ℕ → String → String → Option UpdateBody → Switchboard → Switchboard × Response
  update_channel now id i none s = (s, error 400 "invalid JSON")
  update_channel now id i (some b) s =
      if fails modify_row
      then (s, error 500 "update failed")
      else if not (any (row_of id i) s.channels)
      then (s, error 404 "channel not found")
      else (
        reload fails (record s { channels = update (row_of id i) (changed now b) s.channels }),
        reply 200 (("status", "updated") ∷ []),
      )

  unfoldable pub delete_channel : String → String → Switchboard → Switchboard × Response
  delete_channel id i s =
      if fails remove_row
      then (s, error 500 "delete failed")
      else if not (any (row_of id i) s.channels)
      then (s, error 404 "channel not found")
      else (
        reload fails (record s { channels = delete (row_of id i) s.channels }),
        reply 200 (("status", "deleted") ∷ []),
      )

  abbrev sent_reply : Switchboard × Bool → List (String × String) → Switchboard × Response
  sent_reply (s, false) fields = (s, error 500 "send failed")
  sent_reply (s, true) fields = (s, reply 200 fields)

  -- Send; `none` is a body that does not parse.
  unfoldable pub send_message : ℕ → String → Option String → Switchboard → Switchboard × Response
  send_message now id none s = (s, error 400 "text is required")
  send_message now id (some body) s =
      if is_empty body
      then (s, error 400 "text is required")
      else sent_reply (send_outbound fails now id body s) (("status", "sent") ∷ [])

  unfoldable pub test_channel : ℕ → String → Switchboard → Switchboard × Response
  test_channel now id s =
      sent_reply (send_outbound fails now id "🔔 Starfire channel test — connection successful!" s)
        (("status", "ok") ∷ ("message", "test message sent") ∷ [])

  -- The secret of the channel, where it has one, is the header of the request.
  abbrev pub knows_secret : String → Channel → Bool
  knows_secret header c =
      is_empty (text_of "webhook_secret" c.config) || header == text_of "webhook_secret" c.config

  abbrev pub receives : String → String → InboundMessage → Channel → Bool
  receives channel_type header m c =
      c.channel_type == channel_type
      && is_enabled c
      && knows_secret header c
      && matches_chat_id c.config m.chat_id

  abbrev pub accepted : Option Channel → Response × Option Channel
  accepted none = (reply 200 (("status", "no_channel") ∷ []), none)
  accepted (some c) = (reply 200 (("status", "accepted") ∷ []), some c)

  -- What a webhook does: an answer, and the channel that HandleInbound is started for. A body that
  -- the adapter cannot parse is `none`, one without a message `some none`.
  unfoldable pub webhook :
      String → String → Option (Option InboundMessage) → Switchboard → Response × Option Channel
  webhook channel_type header body s =
      if not (has_adapter channel_type)
      then (error 404 "unknown channel type", none)
      else elim body [
        | none ↦ (error 400 "parse error", none)
        | some none ↦ (reply 200 (("status", "ignored") ∷ []), none)
        | some (some m) ↦
            if fails lookup_rows
            then (error 500 "channel lookup failed", none)
            else accepted (first (receives channel_type header m) s.channels)
      ]

-- What the user is told of an error of DiscoverChats.
abbrev discovery_error : String → String
discovery_error msg =
    if contains msg "invalid bot token" || contains msg "Unauthorized" || contains msg "Not Found"
    then "Invalid bot token. Check the token from @BotFather and try again."
    else if contains msg "Conflict" || contains msg "terminated by other"
    then "This bot is already connected to another channel. Disconnect the existing channel first, or wait 30 seconds and retry."
    else if contains msg "no route to host" || contains msg "i/o timeout"
    then "Cannot reach Telegram API. Check your network connection and try again."
    else "Failed to connect to Telegram. Check your bot token and try again."

abbrev discovered : Option String → Response
discovered none = reply 200 []
discovered (some msg) = error 400 (discovery_error msg)

-- Discover, by the type and the token of the body. The pollers of the token stop while the chats are
-- asked for; `failed` is the error of DiscoverChats, and its chats are left out of the answer.
module _ (fails : Call → Bool) where
  unfoldable pub discover :
      Option String → Option (String × String) → Switchboard → Switchboard × Response
  unfolding resume_pollers pause_pollers_for_token
  discover failed none s = (s, error 400 "bot_token is required")
  discover failed (some (channel_type, token)) s =
      if is_empty token
      then (s, error 400 "bot_token is required")
      else if not (has_adapter channel_type)
      then (s, error 400 "unsupported channel_type")
      else (resume_pollers fails (pause_pollers_for_token fails token s), discovered failed)
