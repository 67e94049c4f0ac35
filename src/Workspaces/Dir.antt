-- ===== src/Workspaces/Dir.antt =====
-- validateWorkspaceDir of handlers/workspace.go. filepath.IsAbs is the test for a leading slash, and
-- filepath.Clean is the parameter `clean`.
pub mod Laws
use starfire_agent_team.Prelude.{
  concat, String, Bool, true, false, not, ◌&&◌, ◌||◌, List, [], ◌∷◌, any, ◌==◌, ◌++◌,
}
use starfire_agent_team.Text.{has_prefix, contains}

abbrev blocked_dirs : List String
blocked_dirs =
    "/etc" ∷ "/var" ∷ "/proc" ∷ "/sys" ∷ "/dev" ∷ "/boot" ∷ "/sbin" ∷ "/bin" ∷ "/lib" ∷ "/usr" ∷ []

abbrev is_in : String → String → Bool
is_in path dir = path == dir || has_prefix path (concat dir "/")

-- true for a nil error
unfoldable pub validate_workspace_dir : (String → String) → String → Bool
validate_workspace_dir clean dir =
    has_prefix dir "/" && not (contains dir "..") && not (any (is_in (clean dir)) blocked_dirs)
