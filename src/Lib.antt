-- ===== src/Lib.antt =====
-- Starfire's platform is a Go server (platform/) that keeps a hierarchy of agent workspaces. Agents
-- register with it, send heartbeats, discover each other, delegate tasks, keep memories and ask for
-- approvals; operators create, pause, restart and delete workspaces, give them secrets and schedules;
-- monitors mark the ones that have stopped, and a hub sends events to the clients that watch. All of
-- them read and write the tables of Postgres and the keys of Redis at the same time, so what one handler
-- guards another can undo. This library models that shared state and the operations on it.
--
-- State. World holds the tables `workspaces`, `workspace_auth_tokens` and the events that are broadcast,
-- the Redis keys (World.Redis: platform/internal/db/redis.go) and the commands given to Docker. Sql has
-- the statements as functions on lists of rows, in the order in which the server returns them. A handler
-- is a function from its request and the world to the world and its answer; which of its statements fail
-- is an argument, and a failed statement changes nothing. One reading of the clock is passed to each. A
-- part with tables of its own (approvals, memories, delegations, secrets, schedules) keeps them in a
-- record beside the world; the hub's state is its own, and its steps are a relation.
--
-- Parts, under platform/internal:
--   Access         registry/access.go: CanCommunicate is can_communicate.
--   WsAuth         wsauth/tokens.go: issue_token, validate_token, revoke_all_for_workspace,
--                  has_any_live_token, bearer_token_from_header.
--   RateLimit      middleware/ratelimit.go: middleware is one request, cleanup one tick.
--   Registry       handlers/registry.go: register, update_card; Registry.Heartbeat has heartbeat and
--                  evaluate_status; Registry.Gate has the token gates of registry.go, a2a_proxy.go and
--                  discovery.go; Registry.Payload the bodies of models/workspace.go.
--   Workspaces     handlers/workspace.go, handlers/workspace_restart.go and
--                  handlers/workspace_provision.go: Create (with DefaultConfig for ensureDefaultConfig),
--                  Update, Provision (provisionWorkspace, buildProvisionerConfig), Delete, Restart (with
--                  RestartByID), Pause (with Resume), State, Dir (validateWorkspaceDir), and Tree for the
--                  recursive queries and isParentPaused. Mounts has histories of creations, patches and
--                  starts.
--   Monitor        registry/liveness.go and registry/healthsweep.go: liveness_message is one expired
--                  key, the two sweeps are one tick each.
--   Discovery      handlers/discovery.go: get_peers is Peers, discover, check_access.
--   Proxy          handlers/a2a_proxy.go: proxy_a2a is the HTTP handler, proxy_a2a_request the call that
--                  it shares with other packages, forwarded what follows the request to the agent; Settled
--                  is about an agent that does not answer.
--   Crypto         crypto/aes.go: the key, encrypt, decrypt_versioned.
--   Hub            ws/hub.go and the connection of handlers/socket.go: connect, unregister, broadcast and
--                  the parts of Close; Hub.Invariant has the steps that its goroutines take.
--   Approvals      handlers/approvals.go: create, list_all, list_of, decide.
--   Memories       handlers/memories.go: commit, search_memories, delete_memory.
--   KeyMemory      handlers/memory.go: get, list, set, delete_key.
--   Delegation     handlers/delegation.go: delegate, execute_delegation; Delegation.Answer is
--                  extractResponseText, Delegation.Reports has Record, UpdateStatus and ListDelegations.
--   Secrets        handlers/secrets.go: values, set_secret and the other handlers.
--   Scheduler      scheduler/scheduler.go: tick, fire_schedule, compute_next_run; Scheduler.Edits has
--                  handlers/schedules.go.
--   Plugins        plugins/source.go, and the checks of plugins/local.go and plugins/github.go.
--   Agents         handlers/agent.go: assign, replace, remove, move.
--   Channels       channels/adapter.go and the checks of channels/telegram.go; Channels.Manager is
--                  channels/manager.go with its poller map and its histories in Redis, Channels.Inbound
--                  its HandleInbound, Channels.Handlers handlers/channels.go, Channels.Split
--                  splitLongMessage. Polling, Runs, History and Guards hold proofs.
--   Webhooks       handlers/webhooks.go: github is the handler, which calls the proxy.
--   Tombstone      histories of registrations, heartbeats, monitors, restarts and deletes as sequences of
--                  steps.
--   Prelude, Text  shared names, and Go's strings functions over texts; Text.Lines has the laws of
--                  lines, Text.Ascii those of bytes.
--   Json, Samples  JSON values as Go reads them, and the worlds of the tests.
--
-- Bounds and fuel. Numbers are natural numbers. An error rate is a float64 as its multiple of 2^-1074,
-- so that comparisons are exact. The walks over parents run on fuel, and `none` says that it ran out: it
-- is enough above the largest rank of a table whose parents form no cycle, and on a cycle the program
-- does not end either. The loop that splits a message runs on fuel too, and any above the length of the
-- text is enough; it is modelled for ASCII texts only, whose bytes are their characters. A length that
-- the code compares otherwise is that of the text in UTF-8. The limits of the code stand as they are: 256 messages in the channel of a client,
-- 4096 bytes in a message of Telegram, 10 turns and 24 hours of a chat, 1 MiB of a body. A time to live
-- is a product in 64 bits, written out with its wrap-around. No other loop is unbounded.
--
-- Not modelled. The drivers of Postgres, Redis and Docker, HTTP and JSON decoding (a body that cannot be
-- read is `none`), event payloads, canvas layouts, logs, and the envelope of a proxied request. SHA-256,
-- HMAC, AES-GCM, base64, hex, Go's %q and decimal digits, filepath.Clean, the text search and the
-- collation of Postgres, the cron library, time zones and generated ids are parameters. Statements of
-- two handlers are interleaved only where a theorem says so; Tombstone runs each handler as one step,
-- and the scheduler's firings come one after another. The start of a container is the parameter `start`,
-- and the templates on disk are parameters of Create. Telegram's API, with its polling loop and the
-- retries of a send, is outside; what it answers is an argument. The handlers for teams, organisations,
-- bundles, files and activities, the lists of workspaces, the calls of Docker in the provisioner, the
-- copying of plugins and the command line client are left out: they are mostly calls of Docker, of the
-- network or of the file system, or plain reads of rows.
mod Prelude
pub mod Sql
pub mod World
pub mod Text
pub mod Access
pub mod WsAuth
pub mod RateLimit
pub mod Registry
pub mod Workspaces
pub mod Monitor
pub mod Tombstone
pub mod Samples
pub mod Crypto
pub mod Discovery
pub mod Proxy
pub mod Hub
pub mod Approvals
pub mod Memories
pub mod KeyMemory
pub mod Delegation
pub mod Secrets
pub mod Scheduler
pub mod Plugins
pub mod Json
pub mod Agents
pub mod Channels
pub mod Webhooks
