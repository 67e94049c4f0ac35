-- ===== src/Workspaces/Create/DefaultConfig.antt =====
-- ensureDefaultConfig of handlers/workspace_provision.go: the config.yaml of a workspace without a
-- template. Decimal digits and Go's %q are the parameters `digits` and `quoted`.
use starfire_agent_team.Prelude.{
  ℕ, String, Bool, ◌||◌, Option, List, [], ◌∷◌, ◌==◌, if◌then◌else◌, any, concat, eqb,
}
use starfire_agent_team.Text.{is_empty, contains}
use Prim.Native.Char.{code}

-- models.CreateWorkspacePayload
pub record CreatePayload : Type 0 where
  pub name : String
  pub role : String
  pub template : String
  pub tier : ℕ
  pub model : String
  pub runtime : String
  pub external : Bool
  pub url : String
  pub workspace_dir : String
  pub workspace_access : String
  pub parent_id : Option String

abbrev pub specials : List String
specials = ":" ∷ "#" ∷ "'" ∷ "\"" ∷ "{" ∷ "}" ∷ "[" ∷ "]" ∷ []

-- Line feeds become blanks, carriage returns go.
unfoldable pub one_line : String → String
one_line String.[] = ""
one_line (String.◌∷◌ c s) =
    let rest = one_line s in
    (if eqb (code c) 10
      then concat " " rest
      else if eqb (code c) 13
      then rest
      else String.◌∷◌ c rest)

abbrev pub yaml_value : (String → String) → String → String
yaml_value quoted s = if any (contains s) specials then quoted s else s

abbrev pub runtime_name : CreatePayload → String
runtime_name p = if is_empty p.runtime then "langgraph" else p.runtime

abbrev pub model_name : CreatePayload → String
model_name p =
    if is_empty p.model
    then (if runtime_name p == "claude-code" then "sonnet" else "anthropic:claude-sonnet-4-6")
    else p.model

abbrev pub runtime_config : String → String
runtime_config runtime =
    if runtime == "claude-code"
    then "runtime_config:\n  required_env:\n    - CLAUDE_CODE_OAUTH_TOKEN\n  timeout: 0\n"
    else if runtime == "codex"
    then "runtime_config:\n  required_env:\n    - OPENAI_API_KEY\n  timeout: 0\n"
    else if runtime == "langgraph" || runtime == "deepagents"
    then ""
    else "runtime_config:\n  timeout: 0\n"

-- One line of the file.
abbrev pub line : String → String → String → String
line key value rest = concat key (concat value (concat "\n" rest))

unfoldable pub ensure_default_config : (ℕ → String) → (String → String) → CreatePayload → String
unfolding one_line
ensure_default_config digits quoted p = line "name: " (yaml_value quoted (one_line p.name)) (
    line "description: " (yaml_value quoted (one_line p.role)) (
      line "version: " "1.0.0" (
        line "tier: " (digits p.tier) (
          line "runtime: " (runtime_name p)
            (line "model: " (model_name p) (runtime_config (runtime_name p)))))))
