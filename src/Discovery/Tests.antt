-- ===== src/Discovery/Tests.antt =====
-- The laws of discovery at the family of four.
use starfire_agent_team.Prelude.{
  String, true, false, ◌≡◌, refl, ◌≢◌, ◌&&◌, none, some, List, true-ne-false, eq_iff,
}
use starfire_agent_team.Sql.{first}
use starfire_agent_team.Text.{is_empty}
use starfire_agent_team.World.StatusColumn.{online, offline}
use starfire_agent_team.World.{Workspace, World, workspace}
use starfire_agent_team.World.Unique.{PrimaryKey}
use starfire_agent_team.Samples.{sha, row, family}
use starfire_agent_team.WsAuth
use starfire_agent_team.Access
use starfire_agent_team.Access.{can_communicate}
use starfire_agent_team.Workspaces.Tree.Laws.{has}
use starfire_agent_team.Registry.Gate.{validate_discovery_caller}
use starfire_agent_team.Registry.Gate.Laws.{Passes}
use starfire_agent_team.Discovery.{listed, peers, get_peers, discover, check_access}
use starfire_agent_team.Discovery.Laws.{no_failure, peers_iff, discover_sound}

family-PrimaryKey : PrimaryKey family.workspaces
family-PrimaryKey = (refl, (refl, (refl, (refl, tt))))

root_apart : ◌≢◌ {A = String} "root" "mid"
root_apart e = true-ne-false ((eq_iff "root" "mid").1 e) refl

peers_iff_example :
    (all : List Workspace) × ((get_peers sha WsAuth.healthy no_failure 5 "Bearer secret" "root"
        family).1
      ≡ peers all)
    × (has "mid" all ≡ (
        can_communicate Access.healthy "root" "mid" family
        && listed (row "mid" offline (some "root"))))
unfolding workspace first validate_discovery_caller WsAuth.has_any_live_token
    starfire_agent_team.Sql.count WsAuth.bearer_token_from_header
    starfire_agent_team.Text.trim_space starfire_agent_team.Text.drop_chars WsAuth.validate_token
peers_iff_example =
    peers_iff sha WsAuth.healthy 5 "Bearer secret" "root" "mid" family (row "root" online none)
      (row "mid" offline (some "root")) family-PrimaryKey refl refl root_apart refl

discover_sound_example :
    (is_empty "mid" ≡ false)
    × Passes sha WsAuth.healthy 5 "" "mid" family
    × (can_communicate Access.healthy "mid" "leaf" family ≡ true)
unfolding discover validate_discovery_caller WsAuth.has_any_live_token starfire_agent_team.Sql.count
    can_communicate workspace first starfire_agent_team.World.Redis.get_cached_internal_url
discover_sound_example =
    discover_sound sha WsAuth.healthy no_failure Access.healthy 5 "" "mid" "leaf" family refl

check_access_run : (check_access Access.healthy (some ("leaf", "root")) family).1 ≡ some false
unfolding check_access can_communicate workspace first
check_access_run = refl
