-- ===== src/Channels.antt =====
-- channels/adapter.go, channels/registry.go and the checks of channels/telegram.go: the channels that
-- connect workspaces to chats. Telegram is the one adapter. What its API answers is a parameter.
pub mod Manager
pub mod Inbound
pub mod Handlers
pub mod Polling
pub mod Runs
pub mod History
pub mod Guards
pub mod Split
mod Tests
use starfire_agent_team.Prelude.{
  ℕ, String, Bool, true, false, ◌&&◌, ◌||◌, not, Option, none, some, List, [], ◌∷◌, if◌then◌else◌,
  ◌==◌, any, or_else, leb, eqb, is_some,
}
use starfire_agent_team.Text.{is_empty, trim_space, split_char, text_length}
use starfire_agent_team.Json.{Json, Members, lookup, as_text}
use starfire_agent_team.World.{World}
use starfire_agent_team.Plugins.{is_digit, is_letter, all_chars, split_first}

-- A row of `workspace_channels`.
pub record Channel : Type 0 where
  pub id : String
  pub workspace_id : String
  pub channel_type : String
  pub config : Members
  pub enabled : Bool
  pub allowed_users : List String
  pub last_message_at : Option ℕ
  pub message_count : ℕ
  pub created_at : ℕ
  pub updated_at : ℕ

pub record InboundMessage : Type 0 where
  pub chat_id : String
  pub user_id : String
  pub username : String
  pub text : String
  pub message_id : String

-- A turn of a conversation, as Redis keeps it.
pub record Turn : Type 0 where
  pub user : String
  pub message : String
  pub reply : String
  pub time : ℕ

-- The list under a key, and when Redis drops it; `none` for no deadline.
pub record Stored : Type 0 where
  pub turns : List Turn
  pub deadline : Option ℕ

-- A poller that runs, with the configuration that it was started with.
pub record Poller : Type 0 where
  pub id : String
  pub config : Members

-- A text that an adapter has sent to a chat.
pub record Sent : Type 0 where
  pub channel_id : String
  pub chat_id : String
  pub text : String

pub record Switchboard : Type 0 where
  pub world : World
  pub channels : List Channel
  pub pollers : List Poller
  pub histories : String → Option Stored
  pub sent : List Sent

-- The calls of Postgres, Redis and the chat that can fail.
pub data Call : Type 0 where
  reload_rows channel_row stats announce range push trim expire : Call
  send : String → Call
  list_rows insert_row modify_row remove_row kick_row lookup_rows token_rows : Call

-- GetAdapter
abbrev pub has_adapter : String → Bool
has_adapter channel_type = channel_type == "telegram"

abbrev pub same_id : String → Channel → Bool
same_id i c = c.id == i

-- config[key].(string), "" for any other value
abbrev pub text_of : String → Members → String
text_of k config = or_else "" (as_text (lookup k config))

-- [A-Za-z0-9_-]
abbrev is_token_char : ℕ → Bool
is_token_char c = is_letter c || is_digit c || eqb c b'_' || eqb c b'-'

abbrev pub is_token_parts : String × Option String → Bool
is_token_parts (digits, none) = false
is_token_parts (digits, some rest) =
    not (is_empty digits)
    && all_chars is_digit digits
    && all_chars is_token_char rest
    && leb 30 (text_length rest)

-- telegramTokenRegex.MatchString
unfoldable pub is_telegram_token : String → Bool
is_telegram_token token = is_token_parts (split_first b':' token)

-- `true` where ValidateConfig returns nil.
unfoldable pub validate_config : Members → Bool
unfolding is_telegram_token
validate_config config =
    not (is_empty (text_of "bot_token" config))
    && is_telegram_token (text_of "bot_token" config)
    && is_some (lookup "chat_id" config)

abbrev pub filled_ids : List String → List String
filled_ids [] = []
filled_ids (s ∷ pieces) =
    let rest = filled_ids pieces in if is_empty (trim_space s) then rest else trim_space s ∷ rest

-- splitChatIDs
unfoldable pub split_chat_ids : String → List String
split_chat_ids raw = filled_ids (split_char b',' raw)

unfoldable pub parse_chat_ids : Members → List String
unfolding split_chat_ids
parse_chat_ids config =
    if is_empty (text_of "chat_id" config) then [] else split_chat_ids (text_of "chat_id" config)

abbrev pub allowed_by : List String → String → Bool
allowed_by [] chat = true
allowed_by (i ∷ ids) chat = any (λ x. x == chat) (i ∷ ids)

unfoldable pub is_chat_allowed : Members → String → Bool
unfolding parse_chat_ids
is_chat_allowed config chat = allowed_by (parse_chat_ids config) chat

unfoldable pub matches_chat_id : Members → String → Bool
matches_chat_id config chat =
    not (is_empty (text_of "chat_id" config))
    && any (λ s. trim_space s == chat) (split_char b',' (text_of "chat_id" config))
