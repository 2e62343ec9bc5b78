-- ===== src/Mcp/Tools.antt =====
-- crates/hyprpilot-mcp/src/tools.rs: `dispatch`, which turns the arguments of a tool into a request
-- to the daemon, an operation of the server, or a preview.
-- serde's reading of a struct and the `Debug` form of a text are parameters.
pub mod Args
pub mod Kinds
pub mod Ops
pub mod Truncate
pub mod Arms
pub mod Table
pub mod Registry
pub mod DryRun
pub mod Listed
pub mod Groups
