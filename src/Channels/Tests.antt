-- ===== src/Channels/Tests.antt =====
-- A Telegram channel of the workspace `root`.
use starfire_agent_team.Prelude.{
  ℕ, ◌≡◌, ◌≢◌, ◌∙◌, sym, refl, arith, String, Bool, true, false, Option, none, some, List, [], ◌∷◌,
  any, all, ◌⊎◌,
}
use starfire_agent_team.Text.{is_empty, text_length}
use starfire_agent_team.Text.Laws.{visible}
use starfire_agent_team.Json.{Json, Members, empty, member, text, object, array, item, end}
use starfire_agent_team.Sql.Order.{limit}
use starfire_agent_team.Samples.{family}
use starfire_agent_team.World.{World, reply}
use starfire_agent_team.Proxy.{Proxied}
use starfire_agent_team.Channels.{
  Channel, InboundMessage, Turn, Stored, Poller, Sent, Switchboard, Call, text_of, split_chat_ids,
  matches_chat_id, is_chat_allowed,
}
use starfire_agent_team.Channels.Manager.{
  running, load_history, pause_pollers_for_token, disable_channel_by_chat_id, max_history_entries,
}
use starfire_agent_team.Channels.Inbound.{is_allowed, handle_inbound, done, blocked}
use starfire_agent_team.Channels.Handlers.{CreateBody, UpdateBody, create_channel, webhook, masked}
use starfire_agent_team.Channels.Polling.{Sound, polled}
use starfire_agent_team.Channels.Runs.{Event, creation, change, inbound, run, run-Synced}
use starfire_agent_team.Channels.History.{
  Append, replay, conversation, load_history-replay, none_fails,
}
use starfire_agent_team.Channels.Guards.{webhook_guarded}
use starfire_agent_team.Channels.Split.{fits_in, split_long_message, join, split_long_message_lem}

abbrev healthy : Call → Bool
healthy _ = false

abbrev token : String
token = "123456789:ABCdefGHIjklMNOpqrSTUvwxYZ012345"

abbrev config : Members
config =
    member "bot_token" (text token)
      (member "chat_id" (text "7, 8") (member "webhook_secret" (text "s3cret") empty))

abbrev new_channel : CreateBody
new_channel = record {
  channel_type = "telegram";
  config = config;
  allowed_users = "42" ∷ [];
  enabled = none;
}

abbrev board : Switchboard
board = record { world = family; channels = []; pollers = []; histories = λ k. none; sent = [] }

board-Sound : Sound board
unfolding starfire_agent_team.Channels.Polling.Synced
board-Sound = record { known = refl; synced = λ i. refl }

abbrev off : UpdateBody
off = record { config = none; allowed_users = none; enabled = some false }

abbrev message : String → InboundMessage
message user = record {
  chat_id = "8";
  user_id = user;
  username = "ada";
  text = "hi";
  message_id = "1";
}

abbrev says_hello : String → Option Json
says_hello body = some (
    object (
      member "result"
        (object
          (member "parts" (array (item (object (member "text" (text "hello") empty)) end)) empty))
        empty))

abbrev agent : Channel → InboundMessage → List Turn → World → Proxied
agent c m turns w = record {
  world = w;
  posted = some "http://127.0.0.1:8001";
  restarting = false;
  is_error = false;
  response = reply 200 [];
}

abbrev digits : ℕ → String
digits n = "500"

abbrev events : List ((Call → Bool) × Event)
events =
    (healthy, creation 1 "c1" "root" (some new_channel))
    ∷ (healthy, inbound digits says_hello agent 2 "c1" (message "42"))
    ∷ (healthy, change 3 "c1" "root" (some off))
    ∷ []

run-Synced_example :
    running "c1" (run events board).pollers ≡ any (polled "c1") (run events board).channels
run-Synced_example = run-Synced events board "c1" refl board-Sound

abbrev created : Switchboard
created = (create_channel healthy 1 "c1" "root" (some new_channel) board).0

polls : running "c1" created.pollers ≡ true
unfolding create_channel starfire_agent_team.Channels.validate_config
    starfire_agent_team.Plugins.split_first starfire_agent_team.Channels.Manager.reload
    starfire_agent_team.Sql.select starfire_agent_team.Channels.Handlers.created
polls = refl

abbrev channel : Channel
channel = record {
  id = "c1";
  workspace_id = "root";
  channel_type = "telegram";
  config = config;
  enabled = true;
  allowed_users = "42" ∷ [];
  last_message_at = none;
  message_count = 0;
  created_at = 1;
  updated_at = 1;
}

handled : (handle_inbound healthy digits says_hello agent 2 channel (message "42") created).1 ≡ done
unfolding handle_inbound starfire_agent_team.Channels.Inbound.extract_reply_text
handled = refl

done_not_blocked : done ≢ blocked
done_not_blocked = λ h. cc

webhook_guarded_example :
    (channel.channel_type ≡ "telegram")
    × (channel.enabled ≡ true)
    × (matches_chat_id channel.config "8" ≡ true)
    × ((is_empty (text_of "webhook_secret" channel.config) ≡ true)
        ⊎ ("s3cret" ≡ text_of "webhook_secret" channel.config))
    × (is_allowed channel.allowed_users (message "42") ≡ true)
unfolding webhook starfire_agent_team.Sql.first create_channel
    starfire_agent_team.Channels.validate_config starfire_agent_team.Plugins.split_first
    starfire_agent_team.Channels.Manager.reload starfire_agent_team.Channels.Handlers.created
    matches_chat_id starfire_agent_team.Text.split_char starfire_agent_team.Text.trim_space
webhook_guarded_example =
    webhook_guarded healthy digits says_hello agent 2 "telegram" "s3cret" (message "42") created
      created channel refl (λ h. done_not_blocked (sym handled ∙ h))

stranger :
    (handle_inbound healthy digits says_hello agent 2 channel (message "43") created).1 ≡ blocked
unfolding handle_inbound
stranger = refl

answered :
    (handle_inbound healthy digits says_hello agent 2 channel (message "42") created).0.sent
    ≡ record { channel_id = "c1"; chat_id = "8"; text = "hello" } ∷ []
unfolding handle_inbound starfire_agent_team.Channels.Inbound.extract_reply_text create_channel
    starfire_agent_team.Channels.validate_config starfire_agent_team.Plugins.split_first
    starfire_agent_team.Channels.Manager.reload
answered = refl

abbrev said : ℕ → Append
said t = record {
  turn = record { user = "ada"; message = "hi"; reply = "hello"; time = t };
  at = t;
  trim_fails = false;
}

load_history-replay_example :
    load_history none_fails 90000 "k" (replay "k" (said 80000 ∷ said 10 ∷ []) (λ k. none))
    ≡ limit max_history_entries (conversation 90000 (said 80000 ∷ said 10 ∷ []))
load_history-replay_example =
    load_history-replay 90000 "k" (said 80000 ∷ said 10 ∷ []) (λ k. none) refl

remembered :
    conversation 90000 (said 80000 ∷ said 10 ∷ []) ≡ (said 80000).turn ∷ (said 10).turn ∷ []
unfolding conversation
remembered = refl

split_long_message_lem_example :
    (chunks : List String) × (split_long_message 20 4 "ab cd\nefgh" ≡ some chunks)
    × (all (fits_in 4) chunks ≡ true)
    × (visible (join chunks) ≡ visible "ab cd\nefgh")
unfolding starfire_agent_team.Text.is_ascii
split_long_message_lem_example =
    split_long_message_lem 20 4 "ab cd\nefgh" (omega arith) (omega arith) refl

at_breaks : split_long_message 20 4 "ab cd\nefgh" ≡ some ("ab" ∷ "cd" ∷ "efgh" ∷ [])
unfolding split_long_message starfire_agent_team.Text.trim_space starfire_agent_team.Text.drop_chars
    starfire_agent_team.Channels.Split.split_point starfire_agent_team.Text.take_chars
at_breaks = refl

-- The first chunk of a text that begins with blanks is empty.
blank_chunk : split_long_message 20 2 "   x" ≡ some ("" ∷ "x" ∷ [])
unfolding split_long_message starfire_agent_team.Text.trim_space starfire_agent_team.Text.drop_chars
    starfire_agent_team.Channels.Split.split_point starfire_agent_team.Text.take_chars
blank_chunk = refl

paused : running "c1" (pause_pollers_for_token healthy token created).0.pollers ≡ false
unfolding pause_pollers_for_token starfire_agent_team.Sql.delete create_channel
    starfire_agent_team.Channels.validate_config starfire_agent_team.Plugins.split_first
    starfire_agent_team.Channels.Manager.reload starfire_agent_team.Sql.select
    starfire_agent_team.Channels.Handlers.created
paused = refl

ids : split_chat_ids " 7,8" ≡ "7" ∷ "8" ∷ []
unfolding split_chat_ids starfire_agent_team.Text.split_char starfire_agent_team.Text.trim_space
ids = refl

hidden : masked token ≡ "1234...2345"
unfolding masked starfire_agent_team.Text.take_chars starfire_agent_team.Text.drop_chars
hidden = refl
