-- ===== src/Webhooks/Laws.antt =====
-- Which webhooks of GitHub reach an agent.
use starfire_agent_team.Prelude.{
  String, true, false, ◌≡◌, refl, Option, none, some, ◌⊎◌, inl, inr, Bool-cases, ◌==◌, eq_iff,
  arith, ◌∙◌, ap,
}
use starfire_agent_team.Text.{is_empty, trim_space, has_prefix, drop_chars, take_chars}
use starfire_agent_team.Json.{Json}
use starfire_agent_team.World.{World}
use starfire_agent_team.Proxy.{Proxied}
use starfire_agent_team.Webhooks.{
  GithubCommentEvent, BuildError, unsupported_event, max_proxy_request_body, target_of, is_mac,
  verify_github_signature, build_comment, new_github_message_payload, comment_text, metadata_of,
  ignored_action, build_github_a2a_payload, forward, github,
}

-- The request shows the HMAC of its body under the secret, which is set.
abbrev pub Signed :
    (hmac : String → String → String) (hex_decode : String → Option String)
    (secret signature body : String)
    → Type 0
Signed hmac hex_decode secret signature body =
    (is_empty (trim_space secret) ≡ false)
    × (has_prefix signature "sha256=" ≡ true)
    × (hex_decode (drop_chars 7 signature) ≡ some (hmac (trim_space secret) body))

-- A new comment on an issue or in the review of a pull request, in the workspace that is named.
abbrev pub Created :
    (unmarshal : String → String → Option GithubCommentEvent) (event body named : String) → Type 0
Created unmarshal event body named =
    (e : GithubCommentEvent) × (unmarshal event body ≡ some e)
    × (e.action ≡ "created")
    × (e.workspace_id ≡ named)
    × ((event ≡ "issue_comment") ⊎ (event ≡ "pull_request_review_comment"))

mac_sound :
    (hmac : String → String → String) (hex_decode : String → Option String) (secret body : String)
    (o : Option String)
    → is_mac hmac hex_decode secret body o ≡ true
    → o ≡ some (hmac secret body)
mac_sound hmac hex_decode secret body none h = absurd cc
mac_sound hmac hex_decode secret body (some got) h = ap some ((eq_iff got (hmac secret body)).0 h)

verified :
    (hmac : String → String → String) (hex_decode : String → Option String)
    (secret body signature : String)
    → verify_github_signature hmac hex_decode secret body signature ≡ true
    → (has_prefix signature "sha256=" ≡ true)
      × (hex_decode (drop_chars 7 signature) ≡ some (hmac secret body))
unfolding verify_github_signature
verified hmac hex_decode secret body signature h = (
  ground (arith, h),
  mac_sound hmac hex_decode secret body (hex_decode (drop_chars 7 signature)) (ground (arith, h)),
)

event_of_comment :
    (event number_key subject delivery named : String) (payload : Json)
    (o : Option GithubCommentEvent)
    → build_comment event number_key subject delivery o ≡ inr (named, payload)
    → (e : GithubCommentEvent) × (o ≡ some e) × (e.action ≡ "created") × (e.workspace_id ≡ named)
unfolding build_comment
event_of_comment event number_key subject delivery named payload none h = absurd cc
event_of_comment event number_key subject delivery named payload (some e) h =
    elim (Bool-cases (e.action == "created")) [
      | inl k ↦ (e, refl, (eq_iff e.action "created").0 k, same (rw k at h))
      | inr k ↦ absurd (ignored (rw k at h))
    ]
  where
    same :
        ◌≡◌ {A = BuildError ⊎ (String × Json)}
          (inr (
            e.workspace_id,
            new_github_message_payload
                (comment_text event subject e)
                (metadata_of event number_key delivery e),
          ))
          (inr (named, payload))
        → e.workspace_id ≡ named
    same g = cc

    ignored : ◌≡◌ {A = BuildError ⊎ (String × Json)} (inl ignored_action) (inr (named, payload)) → ⊥
    ignored g = cc

comment_of_payload :
    (unmarshal : String → String → Option GithubCommentEvent) (event delivery body named : String)
    (payload : Json)
    → build_github_a2a_payload unmarshal event delivery body ≡ inr (named, payload)
    → Created unmarshal event body named
unfolding build_github_a2a_payload
comment_of_payload unmarshal event delivery body named payload h =
    elim (Bool-cases (event == "issue_comment")) [
      | inl k ↦
          let (e, read, made, same) =
            event_of_comment event "issue_number" "issue" delivery named payload
              (unmarshal event body) (rw k at h) in
          (e, read, made, same, inl ((eq_iff event "issue_comment").0 k))
      | inr k ↦ elim (Bool-cases (event == "pull_request_review_comment")) [
        | inl j ↦
            let (e, read, made, same) =
              event_of_comment event "pull_request_num" "PR" delivery named payload
                (unmarshal event body) (rw (k, j) at h) in
            (e, read, made, same, inr ((eq_iff event "pull_request_review_comment").0 j))
        | inr j ↦ absurd (unsupported (rw (k, j) at h))
      ]
    ]
  where
    unsupported :
        ◌≡◌ {A = BuildError ⊎ (String × Json)} (inl unsupported_event) (inr (named, payload)) → ⊥
    unsupported g = cc

module _ (hmac : String → String → String) (hex_decode : String → Option String)
    (unmarshal : String → String → Option GithubCommentEvent) (marshal : Json → String)
    (proxy : String → String → World → Proxied) where
  forward_target :
      (path : String) (b : BuildError ⊎ (String × Json)) (w : World) (url : String)
      → (forward hmac hex_decode unmarshal marshal proxy path b w).posted ≡ some url
      → (named : String) × (payload : Json) × (b ≡ inr (named, payload))
        × (is_empty (target_of path named) ≡ false)
        × (forward hmac hex_decode unmarshal marshal proxy path b w
            ≡ proxy (target_of path named) (marshal payload) w)
  forward_target path (inl e) w url h = absurd cc
  forward_target path (inr (named, payload)) w url h =
      elim (Bool-cases (is_empty (target_of path named))) [
        | inl k ↦ absurd (unsent (rw k at h))
        | inr k ↦ (named, payload, refl, k, rw k refl)
      ]
    where
      unsent : none ≡ some url → ⊥
      unsent g = cc

  -- A request of GitHub reaches an agent only if the secret is set and the body, cut at 1 MiB, is
  -- signed under it; only for a new comment on an issue or in a review; and then the handler is the
  -- proxy's call of the workspace in the path, or of the one in the payload if the path has none,
  -- with the message that is made of the comment.
  pub github_authentic :
      (secret path signature event delivery : String) (raw : Option String) (w : World)
      (url : String)
      → (github hmac hex_decode unmarshal marshal proxy secret path signature event delivery raw
          w).posted
        ≡ some url
      → (sent body named : String) × (payload : Json) × (raw ≡ some sent)
        × (body ≡ take_chars max_proxy_request_body sent)
        × Signed hmac hex_decode secret signature body
        × Created unmarshal event body named
        × (build_github_a2a_payload unmarshal event delivery body ≡ inr (named, payload))
        × (is_empty (target_of path named) ≡ false)
        × (github hmac hex_decode unmarshal marshal proxy secret path signature event delivery raw w
            ≡ proxy (target_of path named) (marshal payload) w)
  unfolding github verify_github_signature
  github_authentic secret path signature event delivery none w url h =
      elim (Bool-cases (is_empty (trim_space secret))) [
        | inl k ↦ absurd (unsent (rw k at h))
        | inr k ↦ absurd (unsent (rw k at h))
      ]
    where
      unsent : none ≡ some url → ⊥
      unsent g = cc
  github_authentic secret path signature event delivery (some sent) w url h =
      elim (Bool-cases (is_empty (trim_space secret))) [
        | inl k ↦ absurd (unsent (rw k at h))
        | inr k ↦
            elim (Bool-cases (
              verify_github_signature hmac hex_decode (trim_space secret)
                (take_chars max_proxy_request_body sent) signature)) [
                  | inl j ↦
                      let body = take_chars max_proxy_request_body sent in
                      let (prefix, mac) =
                        verified hmac hex_decode (trim_space secret) body signature j in
                      let built = build_github_a2a_payload unmarshal event delivery body in
                      let (named, payload, made, target, same) =
                        forward_target path built w url (rw (k, j) at h) in
                      (
                        sent,
                        body,
                        named,
                        payload,
                        refl,
                        refl,
                        (k, prefix, mac),
                        comment_of_payload unmarshal event delivery body named payload made,
                        made,
                        target,
                        answered k j ∙ same,
                      )
                  | inr j ↦ absurd (unsent (rw (k, j) at h))
                ]
      ]
    where
      unsent : none ≡ some url → ⊥
      unsent g = cc

      answered :
          is_empty (trim_space secret) ≡ false
          → verify_github_signature hmac hex_decode
              (trim_space secret)
              (take_chars max_proxy_request_body sent)
              signature
            ≡ true
          → github hmac hex_decode unmarshal marshal proxy secret path signature event delivery
              (some sent)
              w
            ≡ forward hmac hex_decode unmarshal marshal proxy path
                (build_github_a2a_payload unmarshal event delivery
                  (take_chars max_proxy_request_body sent))
                w
      answered k j = rw (k, j) refl
