-- ===== src/Workspaces/Provision/Laws.antt =====
-- What a container gets of the secrets.
use starfire_agent_team.Prelude.{
  ◌≡◌, refl, ap, sym, Bool, ◌∙◌, String, Option, none, some, List, [], ◌∷◌, ◌++◌, if◌then◌else◌,
  concat,
}
use starfire_agent_team.Crypto.{Bytes}
use starfire_agent_team.Secrets
use starfire_agent_team.Secrets.{
  Secret, Vault, Bundle, Served, bundle, broken, refusal, plaintext, put, keep, add_all, merge,
  merged, served, secrets_of,
}
use starfire_agent_team.Workspaces.Provision.{add_env, then_own, env_vars_of}

-- What a 200 of Values holds.
abbrev pub bundle_of : Served → Option (String → Option Bytes)
bundle_of (bundle out) = some out
bundle_of (broken keys) = none
bundle_of (refusal r) = none

module _ (open_ : Bytes → Bytes → Bytes → Option Bytes) (key : Bytes) where
  -- Once a key has failed, the answer is an error.
  clean_env : List Secret → Bundle → List String → Option (String → Option Bytes)
  clean_env rows b [] = add_env open_ key rows b.out
  clean_env rows b (k ∷ keys) = none

  append_nonempty :
      (rows : List Secret) (c : Bundle) (keys : List String) (k : String)
      → clean_env rows c (keys ++ k ∷ []) ≡ none
  unfolding clean_env
  append_nonempty rows c [] k = refl
  append_nonempty rows c (x ∷ keys) k = refl

  served-add_all :
      (scope : String) (rows : List Secret) (b : Bundle)
      → bundle_of (served (add_all open_ key scope rows b)) ≡ clean_env rows b b.failed_keys
  unfolding clean_env add_all add_env
  served-add_all scope [] b = ended b.failed_keys
    where
      ended :
          (keys : List String)
          → bundle_of (elim keys [ [] ↦ bundle b.out | _ ∷ _ ↦ broken b.failed_keys ])
            ≡ clean_env [] b keys
      ended [] = refl
      ended (k ∷ keys) = refl
  served-add_all scope (s ∷ rows) b =
      served-add_all scope rows (keep scope s (plaintext open_ key s) b)
      ∙ turn (plaintext open_ key s) b.failed_keys refl
      ∙ read b.failed_keys
    where
      after : Option Bytes → List String → Option (String → Option Bytes)
      after o [] = elim o [ none ↦ none | some p ↦ add_env open_ key rows (put s.key p b.out) ]
      after o (k ∷ keys) = none

      turn :
          (o : Option Bytes) (keys : List String)
          → b.failed_keys ≡ keys
          → clean_env rows (keep scope s o b) (keep scope s o b).failed_keys ≡ after o keys
      turn none [] f = append_nonempty rows (keep scope s none b) b.failed_keys (concat scope s.key)
      turn none (k ∷ keys) f =
          append_nonempty rows (keep scope s none b) b.failed_keys (concat scope s.key)
      turn (some p) [] f = rw f refl
      turn (some p) (k ∷ keys) f = rw f refl

      read : (keys : List String) → after (plaintext open_ key s) keys ≡ clean_env (s ∷ rows) b keys
      read [] = refl
      read (k ∷ keys) = refl

  resumed :
      (rows : List Secret) (b : Bundle)
      → clean_env rows b b.failed_keys ≡ then_own open_ key rows (bundle_of (served b))
  unfolding clean_env
  resumed rows b = cases b.failed_keys
    where
      cases :
          (keys : List String)
          → clean_env rows b keys
            ≡ then_own open_ key rows
                (bundle_of (elim keys [ [] ↦ bundle b.out | _ ∷ _ ↦ broken b.failed_keys ]))
      cases [] = refl
      cases (k ∷ keys) = refl

  -- The secrets that a container starts with are those that Values hands out once a caller is past
  -- its gate: from the same rows, provisioning goes on exactly if no key of the merge that Values
  -- serves fails to decrypt, and then with the same values. Other variables of the container, and
  -- the gate, are not part of it.
  pub env_vars_of_lem :
      (fails : Secrets.Call → Bool) (i : String) (v : Vault)
      → env_vars_of open_ key fails i v ≡ bundle_of (served (merged open_ key fails i v))
  unfolding env_vars_of merged merge clean_env
  env_vars_of_lem fails i v = sym (
      agree (if fails Secrets.own_rows then [] else secrets_of i v)
        (if fails Secrets.global_rows then [] else v.globals))
    where
      agree :
          (own globals : List Secret)
          → bundle_of (served (merge open_ key own globals))
            ≡ then_own open_ key own (add_env open_ key globals (λ k. none))
      agree own globals =
          let start : Bundle = record { out = λ k. none; failed_keys = [] } in
          let loop = add_all open_ key "global:" globals start in
          served-add_all "workspace:" own loop
          ∙ resumed own loop
          ∙ ap (then_own open_ key own) (served-add_all "global:" globals start)
