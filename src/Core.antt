-- ===== src/Core.antt =====
-- crates/hyprpilot-core: the typed client of Hyprland's sockets.
pub mod WindowSelector
pub mod WorkspaceRef
pub mod Error
pub mod Connection
pub mod Events
pub mod Snapshot
pub mod Types
pub mod Queries
