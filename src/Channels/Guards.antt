-- ===== src/Channels/Guards.antt =====
-- Whose messages reach an agent.
use starfire_agent_team.Prelude.{
  ◌≡◌, ◌≢◌, ◌⊎◌, inl, inr, refl, ◌∙◌, String, Bool, true, Option, none, some, List, arith, eq_iff,
  Bool-cases, ℕ,
}
use starfire_agent_team.Text.{is_empty}
use starfire_agent_team.Json.{Json}
use starfire_agent_team.Sql.{first}
use starfire_agent_team.Sql.Laws.{first_sound}
use starfire_agent_team.World.{World}
use starfire_agent_team.Proxy.{Proxied}
use starfire_agent_team.Channels.{
  Channel, InboundMessage, Turn, Switchboard, Call, lookup_rows, has_adapter, text_of,
  matches_chat_id,
}
use starfire_agent_team.Channels.Inbound.{is_allowed, handle_inbound, blocked}
use starfire_agent_team.Channels.Handlers.{receives, accepted, webhook}

webhook_found :
    (fails : Call → Bool) (channel_type header : String) (m : InboundMessage) (s : Switchboard)
    (c : Channel)
    → (webhook fails channel_type header (some (some m)) s).1 ≡ some c
    → receives fails channel_type header m c ≡ true
unfolding webhook
webhook_found fails channel_type header m s c h = elim (Bool-cases (has_adapter channel_type)) [
  | inr e1 ↦ absurd (nothing (rw e1 at h))
  | inl e1 ↦ elim (Bool-cases (fails lookup_rows)) [
    | inl e2 ↦ absurd (nothing (rw (e1, e2) at h))
    | inr e2 ↦
        found (first (receives fails channel_type header m) s.channels) refl (rw (e1, e2) at h)
  ]
]
  where
    nothing : none ≡ some c → ⊥
    nothing k = cc

    found :
        (o : Option Channel)
        → first (receives fails channel_type header m) s.channels ≡ o
        → (accepted fails o).1 ≡ some c
        → receives fails channel_type header m c ≡ true
    found none e k = cc
    found (some d) e k = first_sound (receives fails channel_type header m) s.channels c (e ∙ k)

allowed_unless_blocked :
    (fails : Call → Bool) (digits : ℕ → String) (unmarshal : String → Option Json)
    (proxy : Channel → InboundMessage → List Turn → World → Proxied) (now : ℕ) (c : Channel)
    (m : InboundMessage) (s : Switchboard)
    → (handle_inbound fails digits unmarshal proxy now c m s).1 ≢ blocked
    → is_allowed c.allowed_users m ≡ true
unfolding handle_inbound
allowed_unless_blocked fails digits unmarshal proxy now c m s h =
    elim (Bool-cases (is_allowed c.allowed_users m)) [ inl e ↦ e | inr e ↦ absurd (h (rw e refl)) ]

-- A message that comes in by a webhook reaches an agent only by a channel of the webhook's type that
-- is enabled, lists the chat, and has no secret or the one that the request shows; and only if the
-- channel's allow list is empty or names the user or the chat.
pub webhook_guarded :
    (fails : Call → Bool) (digits : ℕ → String) (unmarshal : String → Option Json)
    (proxy : Channel → InboundMessage → List Turn → World → Proxied) (now : ℕ)
    (channel_type header : String) (m : InboundMessage) (s later : Switchboard) (c : Channel)
    → (webhook fails channel_type header (some (some m)) s).1 ≡ some c
    → (handle_inbound fails digits unmarshal proxy now c m later).1 ≢ blocked
    → (c.channel_type ≡ channel_type)
      × (c.enabled ≡ true)
      × (matches_chat_id c.config m.chat_id ≡ true)
      × ((is_empty (text_of "webhook_secret" c.config) ≡ true)
          ⊎ (header ≡ text_of "webhook_secret" c.config))
      × (is_allowed c.allowed_users m ≡ true)
webhook_guarded fails digits unmarshal proxy now channel_type header m s later c h k =
    let found = webhook_found fails channel_type header m s c h in
    (
      (eq_iff c.channel_type channel_type).0 (ground (arith, found)),
      ground (arith, found),
      ground (arith, found),
      secret found,
      allowed_unless_blocked fails digits unmarshal proxy now c m later k,
    )
  where
    secret :
        receives fails channel_type header m c ≡ true
        → (is_empty (text_of "webhook_secret" c.config) ≡ true)
          ⊎ (header ≡ text_of "webhook_secret" c.config)
    secret found = elim (Bool-cases (is_empty (text_of "webhook_secret" c.config))) [
      | inl e ↦ inl e
      | inr e ↦ inr ((eq_iff header (text_of "webhook_secret" c.config)).0 (ground (arith, found)))
    ]
