-- ===== src/Workspaces.antt =====
-- handlers/workspace.go, handlers/workspace_provision.go and handlers/workspace_restart.go: the life of
-- a workspace.
pub mod Tree
pub mod Create
pub mod Delete
pub mod Restart
pub mod Pause
pub mod Update
pub mod Provision
pub mod Mounts
pub mod Dir
pub mod State
mod Tests
mod Runs
