-- ===== src/Vision.antt =====
-- The parts of crates/hyprpilot-vision that do not leave the process.
pub mod Geometry
pub mod TextSearch
