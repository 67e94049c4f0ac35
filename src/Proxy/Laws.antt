-- ===== src/Proxy/Laws.antt =====
-- Whose requests reach an agent.
use starfire_agent_team.Prelude.{
  ℕ, String, Bool, true, false, ◌≡◌, refl, Option, none, some, arith, ◌==◌, ◌⊎◌, inl, inr,
  Bool-cases, sym, ◌∙◌, eq_iff,
}
use starfire_agent_team.Text.{is_empty}
use starfire_agent_team.World.{World, Response}
use starfire_agent_team.WsAuth
use starfire_agent_team.Access.{Lookup, can_communicate}
use starfire_agent_team.Registry.Gate.{validate_caller_token}
use starfire_agent_team.Registry.Gate.Laws.{Passes, gates_iff, workspaces-validate_caller_token}
use starfire_agent_team.Discovery.Laws.{can_communicate-rows}
use starfire_agent_team.Proxy.{
  Call, Reply, is_system_caller, proxy_a2a_request, proxy_after, proxy_a2a,
}

-- The caller is the canvas, an internal service, or the workspace itself.
abbrev pub Trusted : String → String → Type 0
Trusted caller i = (is_empty caller ≡ true) ⊎ (is_system_caller caller ≡ true) ⊎ (caller ≡ i)

trust_cases :
    (caller i : String)
    → Trusted caller i
      ⊎ ((is_empty caller ≡ false) × (is_system_caller caller ≡ false) × ((caller == i) ≡ false))
trust_cases caller i = elim (Bool-cases (is_empty caller)) [
  | inl canvas ↦ inl (inl canvas)
  | inr named ↦ elim (Bool-cases (is_system_caller caller)) [
    | inl system ↦ inl (inr (inl system))
    | inr plain ↦ elim (Bool-cases (caller == i)) [
      | inl own ↦ inl (inr (inr ((eq_iff caller i).0 own)))
      | inr other ↦ inr (named, plain, other)
    ]
  ]
]

module _ (fails : Call → Bool) (has_provisioner in_docker : Bool) (agent : String → String → Reply)
    (running : Option Bool) where
  reach_of_posted :
      (links : Lookup → Bool) (now : ℕ) (caller i : String) (body : Option String) (w : World)
      (url : String)
      → (proxy_a2a_request fails has_provisioner in_docker agent running links now caller i body
          w).posted
        ≡ some url
      → Trusted caller i ⊎ (can_communicate links caller i w ≡ true)
  unfolding proxy_a2a_request
  reach_of_posted links now caller i body w url sent =
      elim (Bool-cases (can_communicate links caller i w)) [
        | inl reach ↦ inr reach
        | inr apart ↦ elim (trust_cases caller i) [
          | inl trusted ↦ inl trusted
          | inr (named, plain, other) ↦ absurd (ground (arith, apart, named, plain, other))
        ]
      ]

  posted_after :
      (sha256 : String → String) (auth : WsAuth.Call → Bool) (links : Lookup → Bool) (now : ℕ)
      (caller i : String) (body : Option String) (g : World × Option Response) (url : String)
      → (proxy_after fails has_provisioner in_docker agent running sha256 auth links now caller i
          body g).posted
        ≡ some url
      → (g.1 ≡ none)
        × ((proxy_a2a_request fails has_provisioner in_docker agent running links now caller i body
              g.0).posted
            ≡ some url)
  unfolding proxy_after
  posted_after sha256 auth links now caller i body (x, some given) url sent = (cc, cc)
  posted_after sha256 auth links now caller i body (x, none) url sent = (refl, sent)

  -- A request over HTTP is posted to an agent only if its caller is the canvas, an internal service or
  -- the workspace itself, or else the token gate lets the caller through and the access check lets it
  -- reach the workspace, whichever statements fail.
  pub proxy_sound :
      (sha256 : String → String) (auth : WsAuth.Call → Bool) (links : Lookup → Bool) (now : ℕ)
      (header caller i : String) (body : Option String) (w : World) (url : String)
      → (proxy_a2a fails has_provisioner in_docker agent running sha256 auth links now header caller
          i body w).posted
        ≡ some url
      → Trusted caller i
        ⊎ (Passes sha256 auth now header caller w × (can_communicate links caller i w ≡ true))
  unfolding proxy_a2a proxy_after
  proxy_sound sha256 auth links now header caller i body w url sent = elim (trust_cases caller i) [
    | inl trusted ↦ inl trusted
    | inr (named, plain, other) ↦
        let gate = validate_caller_token sha256 auth now header caller w in
        let (pass, sent2) =
          posted_after sha256 auth links now caller i body gate url
            (rw (named, plain, other) at sent) in
        elim (reach_of_posted links now caller i body gate.0 url sent2) [
          | inl trusted ↦ inl trusted
          | inr reach ↦ inr (
            (gates_iff sha256 auth now header caller w).1.0 pass,
            sym (
                  can_communicate-rows links caller i gate.0 w
                    (workspaces-validate_caller_token sha256 auth now header caller w))
                ∙ reach,
          )
        ]
  ]
