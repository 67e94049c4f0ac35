-- ===== src/Workspaces/Dir/Laws.antt =====
-- What an accepted directory is.
use starfire_agent_team.Prelude.{
  String, Bool, true, false, ◌≡◌, List, [], ◌∷◌, arith, any, ◌==◌, concat, ◌&&◌, not, eq_iff, ◌≢◌,
}
use starfire_agent_team.Text.{has_prefix, contains}
use starfire_agent_team.Workspaces.Dir.{blocked_dirs, is_in, validate_workspace_dir}

not_in_any :
    (path b : String) (dirs : List String)
    → any (is_in path) dirs ≡ false
    → any (λ d. d == b) dirs ≡ true
    → is_in path b ≡ false
not_in_any path b [] h k = cc
not_in_any path b (d ∷ dirs) h k = ground (arith, not_in_any path b dirs, eq_iff d b)

three_tests : (a b c : Bool) → (a && not b && not c) ≡ true → (a ≡ true) × (b ≡ false) × (c ≡ false)
three_tests a b c h = (ground arith, ground arith, ground arith)

-- A directory that is accepted is absolute and has no `..` in it, and its clean form is neither one
-- of the blocked directories nor below one.
pub validate_workspace_dir_sound :
    (clean : String → String) (dir b : String)
    → validate_workspace_dir clean dir ≡ true
    → any (λ d. d == b) blocked_dirs ≡ true
    → (has_prefix dir "/" ≡ true)
      × (contains dir ".." ≡ false)
      × (clean dir ≢ b)
      × (has_prefix (clean dir) (concat b "/") ≡ false)
unfolding validate_workspace_dir
validate_workspace_dir_sound clean dir b h k =
    let (absolute, no_dots, outside) = three_tests _ _ _ h in
    let inside = not_in_any (clean dir) b blocked_dirs outside k in
    (absolute, no_dots, λ e. ground (arith, inside, eq_iff (clean dir) b), ground (arith, inside))
