-- ===== src/Channels/Polling.antt =====
-- Which pollers run after the channels have changed.
use starfire_agent_team.Prelude.{
  ℕ, ◌+◌, ◌≡◌, refl, ◌∙◌, String, Bool, true, false, ◌&&◌, ◌||◌, not, Option, none, some, List, [],
  ◌∷◌, ◌++◌, arith, any, all, eq_iff, ◌==◌, Bool-cases, inl, inr,
}
use starfire_agent_team.Text.{is_empty}
use starfire_agent_team.Sql.{select, update, delete}
use starfire_agent_team.Sql.Laws.{all-append, all-update, all-delete, any-update, any-append}
use starfire_agent_team.Channels.{
  Channel, Poller, Switchboard, Call, reload_rows, modify_row, remove_row, kick_row, stats, send,
  has_adapter, same_id, text_of, validate_config,
}
use starfire_agent_team.Channels.Manager.{
  poller_of, running, is_enabled, stop_others, start_one, start_new, reload,
  disable_channel_by_chat_id, count_message, send_text, send_all,
}
use starfire_agent_team.Channels.Handlers.{
  CreateBody, UpdateBody, created, changed, row_of, can_insert, create_channel, update_channel,
  delete_channel,
}

-- A channel that there should be a poller for.
unfoldable pub polled : String → Channel → Bool
polled i c = is_enabled c && has_adapter c.channel_type && c.id == i

-- The pollers that run are those of the enabled channels.
unfoldable pub Synced : Switchboard → Type 0
Synced s = (i : String) → running i s.pollers ≡ any (polled i) s.channels

abbrev pub adapted : Channel → Bool
adapted c = has_adapter c.channel_type

running-stop_others :
    (i : String) (desired : List Channel) (pollers : List Poller)
    → running i (stop_others desired pollers) ≡ (running i pollers && any (same_id i) desired)
unfolding select
running-stop_others i desired [] = refl
running-stop_others i desired (p ∷ pollers) =
    ground (arith, running-stop_others i desired pollers, eq_iff p.id i)

running-start_one :
    (i : String) (c : Channel) (pollers : List Poller)
    → running i (start_one c pollers) ≡ (running i pollers || (adapted c && c.id == i))
running-start_one i c pollers = elim (Bool-cases (running c.id pollers || not (adapted c))) [
  | inl skipped ↦ ground (arith, eq_iff c.id i)
  | inr fresh ↦
      ground (arith, eq_iff c.id i, any-append (λ p. p.id == i) pollers (poller_of c ∷ []))
]

running-start_new :
    (i : String) (desired : List Channel) (pollers : List Poller)
    → running i (start_new desired pollers)
      ≡ (running i pollers || any (λ c. adapted c && c.id == i) desired)
unfolding start_new
running-start_new i [] pollers = ground arith
running-start_new i (c ∷ desired) pollers =
    ground (arith, running-start_new i desired (start_one c pollers), running-start_one i c pollers)

any-enabled :
    (i : String) (channels : List Channel)
    → any (λ c. adapted c && c.id == i) (select is_enabled channels) ≡ any (polled i) channels
unfolding polled select
any-enabled i [] = refl
any-enabled i (c ∷ channels) = ground (arith, any-enabled i channels)

any-enabled_id :
    (i : String) (channels : List Channel)
    → all adapted channels ≡ true
    → any (same_id i) (select is_enabled channels) ≡ any (polled i) channels
unfolding polled select
any-enabled_id i [] h = refl
any-enabled_id i (c ∷ channels) h = ground (arith, any-enabled_id i channels)

reload-Synced :
    (fails : Call → Bool) (s : Switchboard)
    → fails reload_rows ≡ false
    → all adapted s.channels ≡ true
    → Synced (reload fails s)
unfolding reload Synced
reload-Synced fails s works h i = rw works (
    ground (
      arith,
      running-start_new i (select is_enabled s.channels)
          (stop_others (select is_enabled s.channels) s.pollers),
      running-stop_others i (select is_enabled s.channels) s.pollers,
      any-enabled i s.channels,
      any-enabled_id i s.channels h,
    ))

channels-reload : (fails : Call → Bool) (s : Switchboard) → (reload fails s).channels ≡ s.channels
unfolding reload
channels-reload fails s = ground arith

-- What holds between two requests.
pub record Sound (s : Switchboard) : Type 0 where
  pub known : all adapted s.channels ≡ true
  pub synced : Synced s

pub Sound-reload :
    (fails : Call → Bool) (s : Switchboard)
    → fails reload_rows ≡ false
    → all adapted s.channels ≡ true
    → Sound (reload fails s)
Sound-reload fails s works h = record {
  known = rw (channels-reload fails s) h;
  synced = reload-Synced fails s works h;
}

-- Columns that neither the pollers nor the adapters depend on.
Sound-update :
    (p : Channel → Bool) (f : Channel → Channel) (s t : Switchboard)
    → ((c : Channel) → adapted (f c) ≡ adapted c)
    → ((i : String) (c : Channel) → polled i (f c) ≡ polled i c)
    → t.channels ≡ update p f s.channels
    → t.pollers ≡ s.pollers
    → Sound s
    → Sound t
unfolding Synced
Sound-update p f s t same_type same_poll e q h = record {
  known = rw e (all-update adapted p f s.channels (λ c k. same_type c ∙ k) h.known);
  synced = λ i.
      rw (q, e) (ground (arith, h.synced i, any-update (polled i) p f (same_poll i) s.channels));
}

pub Sound-same :
    (s t : Switchboard) → t.channels ≡ s.channels → t.pollers ≡ s.pollers → Sound s → Sound t
unfolding Synced
Sound-same s t e q h = record { known = rw e h.known; synced = λ i. rw (q, e) (h.synced i) }

module _ (fails : Call → Bool) (works : fails reload_rows ≡ false) where
  pub Sound-create_channel :
      (now : ℕ) (id i : String) (body : Option CreateBody) (s : Switchboard)
      → Sound s
      → Sound (create_channel fails now id i body s).0
  unfolding create_channel created
  Sound-create_channel now id i none s h = h
  Sound-create_channel now id i (some b) s h = elim (Bool-cases (is_empty b.channel_type)) [
    | inl e1 ↦ rw e1 h
    | inr e1 ↦ elim (Bool-cases (has_adapter b.channel_type)) [
      | inr e2 ↦ rw (e1, e2) h
      | inl e2 ↦ elim (Bool-cases (validate_config b.config)) [
        | inr e3 ↦ rw (e1, e2, e3) h
        | inl e3 ↦ elim (Bool-cases (can_insert fails i b s)) [
          | inr e4 ↦ rw (e1, e2, e3, e4) h
          | inl e4 ↦
              rw (e1, e2, e3, e4)
                (Sound-reload fails (record s { channels = s.channels ++ created now id i b ∷ [] })
                  works (all-append adapted s.channels (created now id i b) h.known e2))
        ]
      ]
    ]
  ]

  pub Sound-update_channel :
      (now : ℕ) (id i : String) (body : Option UpdateBody) (s : Switchboard)
      → Sound s
      → Sound (update_channel fails now id i body s).0
  unfolding update_channel changed
  Sound-update_channel now id i none s h = h
  Sound-update_channel now id i (some b) s h = elim (Bool-cases (fails modify_row)) [
    | inl e1 ↦ rw e1 h
    | inr e1 ↦ elim (Bool-cases (any (row_of id i) s.channels)) [
      | inr e2 ↦ rw (e1, e2) h
      | inl e2 ↦
          rw (e1, e2)
            (Sound-reload fails
              (record s { channels = update (row_of id i) (changed now b) s.channels }) works
              (all-update adapted (row_of id i) (changed now b) s.channels (λ c k. k) h.known))
    ]
  ]

  pub Sound-delete_channel :
      (id i : String) (s : Switchboard) → Sound s → Sound (delete_channel fails id i s).0
  unfolding delete_channel
  Sound-delete_channel id i s h = elim (Bool-cases (fails remove_row)) [
    | inl e1 ↦ rw e1 h
    | inr e1 ↦ elim (Bool-cases (any (row_of id i) s.channels)) [
      | inr e2 ↦ rw (e1, e2) h
      | inl e2 ↦
          rw (e1, e2)
            (Sound-reload fails (record s { channels = delete (row_of id i) s.channels }) works
              (all-delete adapted (row_of id i) s.channels h.known))
    ]
  ]

  pub Sound-disable :
      (has_column : Bool) (now : ℕ) (chat : String) (s : Switchboard)
      → Sound s
      → Sound (disable_channel_by_chat_id fails has_column now chat s)
  unfolding disable_channel_by_chat_id
  Sound-disable has_column now chat s h =
      elim (Bool-cases (
        not has_column
        || fails kick_row
        || not (
            any
              (λ (c : Channel).
                c.channel_type == "telegram" && c.enabled && text_of "chat_id" c.config == chat)
              s.channels))) [
                | inl skipped ↦ rw skipped h
                | inr hit ↦ rw hit (
                    Sound-reload fails _ works (
                      all-update adapted _ (λ c. record c { enabled = false; updated_at = now })
                        s.channels (λ c k. k) h.known))
              ]

module _ (fails : Call → Bool) where
  pub Sound-count_message :
      (now : ℕ) (i : String) (s : Switchboard) → Sound s → Sound (count_message fails now i s)
  unfolding polled
  Sound-count_message now i s h = elim (Bool-cases (fails stats)) [
    | inl failed ↦ rw failed h
    | inr counted ↦ rw counted (
        Sound-update (same_id i)
          (λ c. record c {
            last_message_at = some now;
            message_count = c.message_count + 1;
            updated_at = now;
          })
          s _ (λ c. refl) (λ j c. refl) refl refl h)
  ]

  pub Sound-send_text :
      (c : Channel) (chat body : String) (s : Switchboard)
      → Sound s
      → Sound (send_text fails c chat body s)
  Sound-send_text c chat body s h = elim (Bool-cases (fails (send chat))) [
    | inl failed ↦ rw failed h
    | inr sends ↦ rw sends (Sound-same s _ refl refl h)
  ]

  pub Sound-send_all :
      (c : Channel) (chats : List String) (body : String) (s : Switchboard)
      → Sound s
      → Sound (send_all fails c chats body s)
  unfolding send_all
  Sound-send_all c [] body s h = h
  Sound-send_all c (chat ∷ chats) body s h =
      Sound-send_all c chats body (send_text fails c chat body s) (Sound-send_text c chat body s h)
