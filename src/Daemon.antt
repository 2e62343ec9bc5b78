-- ===== src/Daemon.antt =====
-- crates/hyprpilot-daemon: the long-running process between the clients and Hyprland.
pub mod Actions
pub mod Shell
pub mod Rules
pub mod Engine
pub mod Binds
pub mod Protocol
pub mod Replies
pub mod Undo
pub mod Cache
pub mod Recorded
pub mod Services
pub mod Server
