-- ===== src/Mcp.antt =====
-- crates/hyprpilot-mcp: the server that offers the desktop's operations as tools to an agent.
pub mod Capability
pub mod Rpc
pub mod Server
pub mod Tools
pub mod Session
pub mod Clicks
pub mod Calls
pub mod Handle
pub mod Desktop
