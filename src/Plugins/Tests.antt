-- ===== src/Plugins/Tests.antt =====
-- Sources and specs, concretely.
use starfire_agent_team.Prelude.{◌≡◌, ℕ, refl, none, some, [], ◌∷◌}
use starfire_agent_team.Plugins.{
  Source, raw, parse_source, match_scheme, local_name, match_repo, Repo, git_args, register,
  resolve,
}
use starfire_agent_team.Plugins.Sources.{parse_source-raw}

abbrev on_github : Source
on_github = record { scheme = "github"; spec = "foo/bar#v1.0" }

parse_source-raw_example : parse_source (raw on_github) ≡ some on_github
unfolding parse_source match_scheme starfire_agent_team.Text.trim_space
    starfire_agent_team.Text.contains_char starfire_agent_team.Text.drop_chars
parse_source-raw_example = parse_source-raw " github:// foo/bar#v1.0 " on_github refl refl

bare_name : parse_source "my-plugin" ≡ some (record { scheme = "local"; spec = "my-plugin" })
unfolding parse_source match_scheme starfire_agent_team.Text.trim_space
    starfire_agent_team.Text.contains_char starfire_agent_team.Text.drop_chars
bare_name = refl

blank_after_scheme : parse_source "local:// " ≡ none
unfolding parse_source match_scheme starfire_agent_team.Text.trim_space
    starfire_agent_team.Text.contains_char starfire_agent_team.Text.drop_chars
blank_after_scheme = refl

traversal : local_name "../etc" ≡ none
unfolding local_name starfire_agent_team.Text.trim_space starfire_agent_team.Text.contains_char
    starfire_agent_team.Text.contains
traversal = refl

named : local_name " my-plugin " ≡ some "my-plugin"
unfolding local_name starfire_agent_team.Text.trim_space starfire_agent_team.Text.contains_char
    starfire_agent_team.Text.contains
named = refl

dotted : local_name ".." ≡ none
unfolding local_name starfire_agent_team.Text.trim_space starfire_agent_team.Text.contains_char
    starfire_agent_team.Text.contains
dotted = refl

abbrev bar : Repo
bar = record { owner = "foo"; repo = "bar"; ref = "v1.0" }

matched : match_repo "foo/bar#v1.0" ≡ some bar
unfolding match_repo starfire_agent_team.Text.trim_space
matched = refl

flag : match_repo "foo/bar#-exec" ≡ none
unfolding match_repo starfire_agent_team.Text.trim_space
flag = refl

three_parts : match_repo "foo/bar/baz" ≡ none
unfolding match_repo starfire_agent_team.Text.trim_space
three_parts = refl

cloned :
    git_args "https://github.com" "/tmp/repo" bar
    ≡ "clone" ∷ "--depth=1" ∷ "--branch" ∷ "v1.0" ∷ "--" ∷ "https://github.com/foo/bar.git"
      ∷ "/tmp/repo" ∷ []
unfolding git_args
cloned = refl

overwritten : resolve {R = ℕ} "local" (register "local" 2 (register "local" 1 [])) ≡ some 2
overwritten = refl
