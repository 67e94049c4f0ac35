-- ===== src/Webhooks.antt =====
-- handlers/webhooks.go: comments on GitHub that become messages to an agent. The HMAC, the hex
-- decoder and the JSON package are parameters, `none` for an error; a number of the payload is kept
-- as its decimal text. Bodies are texts of bytes.
pub mod Laws
mod Tests
use starfire_agent_team.Prelude.{
  ℕ, String, Bool, true, false, ◌&&◌, not, Option, none, some, List, [], ◌∷◌, if◌then◌else◌, ◌==◌,
  ◌⊎◌, inl, inr, concat, ◌^◌,
}
use starfire_agent_team.Text.{is_empty, trim_space, has_prefix, drop_chars, take_chars, text_length}
use starfire_agent_team.Json.{Json, text, number, array, object, end, item, Members, empty, member}
use starfire_agent_team.World.{World, Response, reply, error}
use starfire_agent_team.Access.{Lookup}
use starfire_agent_team.Proxy.{Proxied, Reply, Call, refused, proxy_a2a_request}

pub record GithubRepository : Type 0 where
  pub full_name : String

pub record GithubSender : Type 0 where
  pub login : String

pub record GithubComment : Type 0 where
  pub body : String
  pub html_url : String

-- githubIssue and githubPullRequest
pub record GithubNumber : Type 0 where
  pub number : String

-- githubIssueCommentEvent, and githubPRReviewCommentEvent, where the subject is the pull request
pub record GithubCommentEvent : Type 0 where
  pub workspace_id : String
  pub action : String
  pub repository : GithubRepository
  pub sender : GithubSender
  pub subject : GithubNumber
  pub comment : GithubComment

pub data BuildError : Type 0 where
  unsupported_event ignored_action : BuildError
  invalid_payload : String → BuildError

abbrev joined : List String → String
joined [] = ""
joined (s ∷ rest) = concat s (joined rest)

-- A message/send call.
unfoldable pub new_github_message_payload : String → Members → Json
new_github_message_payload content metadata = object (
    member "method" (text "message/send") (
      member "params"
        (object (
          member "message"
            (object (
              member "role" (text "user") (
                member "parts" (array (item (object (member "text" (text content) empty)) end))
                  empty)))
            (member "metadata" (object metadata) empty)))
        empty))

abbrev comment_text : String → String → GithubCommentEvent → String
comment_text event subject e = joined (
    "GitHub "
    ∷ event
    ∷ " event ("
    ∷ e.action
    ∷ ") in "
    ∷ e.repository.full_name
    ∷ " "
    ∷ subject
    ∷ " #"
    ∷ e.subject.number
    ∷ " by "
    ∷ e.sender.login
    ∷ ":\n"
    ∷ trim_space e.comment.body
    ∷ [])

abbrev metadata_of : String → String → String → GithubCommentEvent → Members
metadata_of event number_key delivery e = member "source" (text "github") (
    member "event" (text event) (
      member "action" (text e.action) (
        member "delivery_id" (text delivery) (
          member "repository" (text e.repository.full_name) (
            member "sender" (text e.sender.login) (
              member number_key (number e.subject.number)
                (member "comment_url" (text e.comment.html_url) empty)))))))

-- One case of the switch: what the event calls the number of its subject, and the subject.
unfoldable pub build_comment :
    String → String → String → String → Option GithubCommentEvent → BuildError ⊎ (String × Json)
unfolding new_github_message_payload
build_comment event number_key subject delivery none = inl (invalid_payload event)
build_comment event number_key subject delivery (some e) =
    if not (e.action == "created")
    then inl ignored_action
    else inr (
      e.workspace_id,
      new_github_message_payload (comment_text event subject e)
          (metadata_of event number_key delivery e),
    )

abbrev max_proxy_request_body : ℕ
max_proxy_request_body = 2 ^ 20

-- proxyErr and buildErr, as the handler answers them
abbrev build_answer : BuildError → Response
build_answer unsupported_event =
    reply 202 (("status", "ignored") ∷ ("reason", "unsupported event type") ∷ [])
build_answer ignored_action =
    reply 202 (("status", "ignored") ∷ ("reason", "unsupported event type") ∷ [])
build_answer (invalid_payload event) = error 400 (concat "invalid " (concat event " payload"))

-- The path's workspace, or the payload's.
abbrev pub target_of : String → String → String
target_of path named = if is_empty path then named else path

module _ (hmac : String → String → String) (hex_decode : String → Option String) where
  abbrev is_mac : String → String → Option String → Bool
  is_mac secret body none = false
  is_mac secret body (some got) = got == hmac secret body

  unfoldable pub verify_github_signature : String → String → String → Bool
  verify_github_signature secret body header =
      has_prefix header "sha256=" && is_mac secret body (hex_decode (drop_chars 7 header))

-- `unmarshal` knows which of the two event types it reads.
module _ (unmarshal : String → String → Option GithubCommentEvent) where
  unfoldable pub build_github_a2a_payload : String → String → String → BuildError ⊎ (String × Json)
  unfolding build_comment
  build_github_a2a_payload event delivery body =
      if event == "issue_comment"
      then build_comment event "issue_number" "issue" delivery (unmarshal event body)
      else if event == "pull_request_review_comment"
      then build_comment event "pull_request_num" "PR" delivery (unmarshal event body)
      else inl unsupported_event

module _ (hmac : String → String → String) (hex_decode : String → Option String)
    (unmarshal : String → String → Option GithubCommentEvent) (marshal : Json → String)
    (proxy : String → String → World → Proxied) where
  abbrev pub forward : String → BuildError ⊎ (String × Json) → World → Proxied
  forward path (inl e) w = refused w (build_answer e)
  forward path (inr (named, payload)) w =
      if is_empty (target_of path named)
      then refused w (error 400 "missing workspace id")
      else proxy (target_of path named) (marshal payload) w

  abbrev pub github_body :
      String → String → String → String → String → Option String → World → Proxied
  github_body secret path signature event delivery none w =
      refused w (error 400 "failed to read request body")
  github_body secret path signature event delivery (some raw) w =
      let body = take_chars max_proxy_request_body raw in
      if not (verify_github_signature hmac hex_decode secret body signature)
      then refused w (error 401 "invalid webhook signature")
      else forward path (build_github_a2a_payload unmarshal event delivery body) w

  -- The secret is the value of GITHUB_WEBHOOK_SECRET; a body that cannot be read is `none`.
  unfoldable pub github :
      String → String → String → String → String → Option String → World → Proxied
  unfolding verify_github_signature build_github_a2a_payload
  github secret path signature event delivery raw w =
      if is_empty (trim_space secret)
      then refused w (error 503 "github webhook secret is not configured")
      else github_body (trim_space secret) path signature event delivery raw w

-- The platform's own proxy, as the handler calls it.
module _ (fails : Call → Bool) (has_provisioner in_docker : Bool) (agent : String → String → Reply)
    (running : Option Bool) (links : Lookup → Bool) (now : ℕ) where
  abbrev pub webhook_proxy : String → String → World → Proxied
  webhook_proxy i body w =
      proxy_a2a_request fails has_provisioner in_docker agent running links now "webhook:github" i
        (some body) w
