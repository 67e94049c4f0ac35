-- ===== src/Workspaces/Create/Readback.antt =====
-- What is read back of a config.yaml that the platform wrote.
use Prim.Native.Char.{code}
use text.Mathlib.TextPositions.{starts_with-append}
use starfire_agent_team.Prelude.{
  ℕ, ◌≡◌, refl, ◌∙◌, ap, sym, String, true, false, some, ◌∷◌, any, concat, Bool-cases, inl, inr,
  eqb,
}
use starfire_agent_team.Text.{
  is_empty, is_space, trim_left, trim_space, has_prefix, contains, contains_char, split_lines,
}
use starfire_agent_team.Text.Lines.{
  concat_assoc, contains_char-concat, split_lines-concat, trim_space-key, value_of_key, other_key,
  head_code,
}
use starfire_agent_team.Workspaces.Restart.{runtime_line}
use starfire_agent_team.Workspaces.Create.DefaultConfig.{
  CreatePayload, one_line, specials, yaml_value, runtime_name, line, ensure_default_config,
}

no_feed-one_line : (s : String) → contains_char 10 (one_line s) ≡ false
unfolding one_line contains_char
no_feed-one_line String.[] = refl
no_feed-one_line (String.◌∷◌ c s) = elim (Bool-cases (eqb (code c) 10)) [
  | inl e ↦ rw e (contains_char-concat 10 " " (one_line s) ∙ no_feed-one_line s)
  | inr e ↦ elim (Bool-cases (eqb (code c) 13)) [
    | inl k ↦ rw (e, k) (no_feed-one_line s)
    | inr k ↦ rw (e, k) (rw e (no_feed-one_line s))
  ]
]

split_lines-line :
    (key value rest : String)
    → contains_char 10 key ≡ false
    → contains_char 10 value ≡ false
    → split_lines (line key value rest) ≡ concat key value ∷ split_lines rest
split_lines-line key value rest h k =
    ap split_lines (sym (concat_assoc key value (concat "\n" rest)))
    ∙ split_lines-concat (concat key value) rest
        (contains_char-concat 10 key value ∙ rw (h, k) refl)

-- A line under a key that is another word.
runtime_line-skip :
    (key value rest : String)
    → contains_char 10 key ≡ false
    → contains_char 10 value ≡ false
    → is_space (head_code key) ≡ false
    → eqb (head_code key) b'r' ≡ false
    → runtime_line (split_lines (line key value rest)) ≡ runtime_line (split_lines rest)
unfolding runtime_line
runtime_line-skip key value rest h k blank apart =
    ap runtime_line (split_lines-line key value rest h k)
    ∙ rw (other_key key value "runtime:" blank refl apart) refl

runtime_line-found :
    (value rest : String)
    → contains_char 10 value ≡ false
    → is_empty value ≡ false
    → trim_space value ≡ value
    → runtime_line (split_lines (line "runtime: " value rest)) ≡ some value
unfolding runtime_line contains_char is_space trim_left
runtime_line-found value rest h filled trimmed =
    ap runtime_line (split_lines-line "runtime: " value rest refl h)
    ∙ rw (trim_space-key "runtime: " value refl filled trimmed)
        (rw (starts, value_of_key "runtime:" " " value refl trimmed) refl)
  where
    starts : has_prefix (concat "runtime: " value) "runtime:" ≡ true
    starts =
        ap (λ x. has_prefix x "runtime:") (concat_assoc "runtime:" " " value)
        ∙ starts_with-append "runtime:" (concat " " value)

module _ (digits : ℕ → String) (quoted : String → String)
    (digits_plain : (n : ℕ) → contains_char 10 (digits n) ≡ false)
    (quoted_plain : (s : String) → contains_char 10 (quoted s) ≡ false) where
  no_feed-yaml_value : (s : String) → contains_char 10 (yaml_value quoted (one_line s)) ≡ false
  no_feed-yaml_value s = elim (Bool-cases (any (contains (one_line s)) specials)) [
    | inl e ↦ rw e (quoted_plain (one_line s))
    | inr e ↦ rw e (no_feed-one_line s)
  ]

  -- The loop by which Restart reads the runtime finds, in the config.yaml that the platform writes,
  -- the runtime of the payload, or langgraph for none, if the runtime is trimmed and has no line
  -- feed. Of the formatting: decimal digits and quoted texts have no line feed.
  pub runtime_of_default_config :
      (p : CreatePayload)
      → contains_char 10 p.runtime ≡ false
      → trim_space p.runtime ≡ p.runtime
      → runtime_line (split_lines (ensure_default_config digits quoted p)) ≡ some (runtime_name p)
  unfolding ensure_default_config contains_char is_space trim_space
  runtime_of_default_config p h trimmed =
      runtime_line-skip "name: " _ _ refl (no_feed-yaml_value p.name) refl refl
      ∙ runtime_line-skip "description: " _ _ refl (no_feed-yaml_value p.role) refl refl
      ∙ runtime_line-skip "version: " _ _ refl refl refl refl
      ∙ runtime_line-skip "tier: " _ _ refl (digits_plain p.tier) refl refl
      ∙ elim (Bool-cases (is_empty p.runtime)) [
        | inl e ↦ runtime_line-found _ _ (rw e refl) (rw e refl) (rw e refl)
        | inr e ↦ runtime_line-found _ _ (rw e h) (rw e e) (rw e trimmed)
      ]
