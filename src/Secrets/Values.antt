-- ===== src/Secrets/Values.antt =====
-- Who gets the secrets of a workspace, and which values.
use starfire_agent_team.Prelude.{
  ℕ, ◌≡◌, ◌≢◌, ◌⊎◌, inl, inr, refl, sym, ◌∙◌, ap, String, Bool, true, false, Option, none, some,
  List, [], ◌∷◌, ◌++◌, arith, if◌then◌else◌, eq_iff, Bool-cases, concat,
}
use starfire_agent_team.Text.{is_empty}
use starfire_agent_team.World.{World, Response}
use starfire_agent_team.WsAuth
use starfire_agent_team.WsAuth.{has_any_live_token, validate_token, bearer_token_from_header}
use starfire_agent_team.Registry.Gate.{bearer_check}
use starfire_agent_team.Crypto.{Bytes}
use starfire_agent_team.Secrets.{
  is_uuid, Secret, Vault, Call, own_rows, global_rows, Bundle, bundle, broken, refusal, plaintext,
  keep, add, add_all, merge, merged, served, values_after, values_gate, values, secrets_of, key_is,
}

bundle_inj : {f g : String → Option Bytes} → bundle f ≡ bundle g → f ≡ g
bundle_inj e = cc

-- The row of a key that a loop over the rows reads last.
abbrev pub last_of : String → List Secret → Option Secret
last_of k [] = none
last_of k (s ∷ rows) = elim (last_of k rows) [
  | some r ↦ some r
  | none ↦ if key_is k s then some s else none
]

module _ (open_ : Bytes → Bytes → Bytes → Option Bytes) (key : Bytes) where
  abbrev pub value_or : Option Bytes → Option Secret → Option Bytes
  value_or d none = d
  value_or d (some s) = plaintext open_ key s

  no_failures :
      (scope : String) (rows : List Secret) (b : Bundle)
      → (add_all open_ key scope rows b).failed_keys ≡ []
      → b.failed_keys ≡ []
  unfolding add_all
  no_failures scope [] b h = h
  no_failures scope (s ∷ rows) b h =
      ground (arith, no_failures scope rows (add open_ key scope s b) h)

  turn :
      (scope k : String) (s : Secret) (b : Bundle) (o : Option Bytes)
      → plaintext open_ key s ≡ o
      → (keep scope s o b).failed_keys ≡ []
      → (keep scope s o b).out k ≡ value_or (b.out k) (if key_is k s then some s else none)
  turn scope k s b none e clean = absurd (append_nonempty b.failed_keys clean)
    where
      append_nonempty : (xs : List String) → (xs ++ concat scope s.key ∷ []) ≢ []
      append_nonempty [] = λ f. cc
      append_nonempty (x ∷ xs) = λ f. cc
  turn scope k s b (some p) e clean = elim (Bool-cases (key_is k s)) [
    | inl same ↦ ground (arith, e, eq_iff k s.key, eq_iff s.key k)
    | inr other ↦ ground (arith, eq_iff k s.key, eq_iff s.key k)
  ]

  out-add_all :
      (scope k : String) (rows : List Secret) (b : Bundle)
      → (add_all open_ key scope rows b).failed_keys ≡ []
      → (add_all open_ key scope rows b).out k ≡ value_or (b.out k) (last_of k rows)
  unfolding add_all
  out-add_all scope k [] b h = refl
  out-add_all scope k (s ∷ rows) b h =
      out-add_all scope k rows (add open_ key scope s b) h ∙ last_turn (last_of k rows)
    where
      clean : (add open_ key scope s b).failed_keys ≡ []
      clean = no_failures scope rows (add open_ key scope s b) h

      last_turn :
          (o : Option Secret)
          → value_or ((add open_ key scope s b).out k) o
            ≡ value_or
                (b.out k)
                (elim o [ some r ↦ some r | none ↦ if key_is k s then some s else none ])
      last_turn (some r) = refl
      last_turn none = turn scope k s b (plaintext open_ key s) refl clean

  bundle_clean :
      (b : Bundle) (f : String → Option Bytes)
      → served b ≡ bundle f
      → (b.failed_keys ≡ []) × (b.out ≡ f)
  bundle_clean b f = go b.failed_keys
    where
      go :
          (xs : List String)
          → (elim xs [ [] ↦ bundle b.out | _ ∷ _ ↦ broken b.failed_keys ]) ≡ bundle f
          → (xs ≡ []) × (b.out ≡ f)
      go [] e = (refl, bundle_inj e)
      go (x ∷ xs) e = cc

  merge_value :
      (k : String) (own globals : List Secret)
      → (merge open_ key own globals).failed_keys ≡ []
      → (merge open_ key own globals).out k
        ≡ value_or (value_or none (last_of k globals)) (last_of k own)
  unfolding merge
  merge_value k own globals clean =
      out-add_all "workspace:" k own first_pass clean
      ∙ ap (λ d. value_or d (last_of k own))
          (out-add_all "global:" k globals (record { out = λ j. none; failed_keys = [] })
            (no_failures "workspace:" own first_pass clean))
    where
      first_pass : Bundle
      first_pass =
          add_all open_ key "global:" globals (record { out = λ j. none; failed_keys = [] })

  merged_all :
      (fails : Call → Bool) (i : String) (v : Vault)
      → fails own_rows ≡ false
      → fails global_rows ≡ false
      → merged open_ key fails i v ≡ merge open_ key (secrets_of i v) v.globals
  unfolding merged
  merged_all fails i v own global = rw (own, global) refl

  after_gate :
      (fails : Call → Bool) (i : String) (v : Vault) (f : String → Option Bytes)
      (g : World × Option Response)
      → (values_after open_ key fails i v g).1 ≡ bundle f
      → (g.1 ≡ none) × (served (merged open_ key fails i v) ≡ bundle f)
  after_gate fails i v f (w, none) e = (refl, e)
  after_gate fails i v f (w, some r) e = cc

  module _ (sha256 : String → String) (auth : WsAuth.Call → Bool) where
    answered :
        (fails : Call → Bool) (now : ℕ) (header i : String) (v : Vault) (w : World)
        (f : String → Option Bytes)
        → (values open_ key sha256 auth fails now header i v w).1 ≡ bundle f
        → (is_uuid i ≡ true)
          × ((values_gate sha256 auth now header i w).1 ≡ none)
          × (served (merged open_ key fails i v) ≡ bundle f)
    unfolding values
    answered fails now header i v w f e = elim (Bool-cases (is_uuid i)) [
      | inl ok ↦
          let (passed, all_fine) =
            after_gate fails i v f (values_gate sha256 auth now header i w) (rw ok at e) in
          (ok, passed, all_fine)
      | inr bad ↦ absurd (refused (rw bad at e))
    ]
      where
        refused : {r : Response} → refusal r ≡ bundle f → ⊥
        refused h = cc

    validate_token-empty :
        (now : ℕ) (i token : String) (w : World)
        → is_empty token ≡ true
        → (validate_token sha256 auth now i token w).1 ≡ false
    unfolding validate_token
    validate_token-empty now i token w h = ground arith

    gate_passed :
        (now : ℕ) (header i : String) (w : World)
        → (values_gate sha256 auth now header i w).1 ≡ none
        → (has_any_live_token auth i w ≡ some false)
          ⊎ ((validate_token sha256 auth now i (bearer_token_from_header header) w).1 ≡ true)
    unfolding values_gate bearer_check
    gate_passed now header i w h = ground arith

    -- The secrets of a workspace are handed out only for a well-formed id, and to whoever presents a
    -- token that is valid for that workspace, or where the workspace is known to have no live token:
    -- unlike the other gates this one is closed where the check for a token fails.
    pub values_guarded :
        (fails : Call → Bool) (now : ℕ) (header i : String) (v : Vault) (w : World)
        (f : String → Option Bytes)
        → (values open_ key sha256 auth fails now header i v w).1 ≡ bundle f
        → (is_uuid i ≡ true)
          × ((has_any_live_token auth i w ≡ some false)
              ⊎ ((validate_token sha256 auth now i (bearer_token_from_header header) w).1 ≡ true))
    values_guarded fails now header i v w f e =
        let (ok, passed, _) = answered fails now header i v w f e in
        (ok, gate_passed now header i w passed)

    -- Where both queries succeed, the secrets of a bundle that is handed out hold, for each key,
    -- the decrypted value of the workspace's own row of that key, or else of the global one, or
    -- else nothing.
    pub values_merged :
        (fails : Call → Bool) (now : ℕ) (header i k : String) (v : Vault) (w : World)
        (f : String → Option Bytes)
        → fails own_rows ≡ false
        → fails global_rows ≡ false
        → (values open_ key sha256 auth fails now header i v w).1 ≡ bundle f
        → f k ≡ value_or (value_or none (last_of k v.globals)) (last_of k (secrets_of i v))
    values_merged fails now header i k v w f own global e =
        let (_, _, fine) = answered fails now header i v w f e in
        let (clean, out) =
          bundle_clean (merge open_ key (secrets_of i v) v.globals) f
            (rw (sym (merged_all fails i v own global)) fine) in
        sym (ap (λ g. g k) out) ∙ merge_value k (secrets_of i v) v.globals clean
