-- ===== src/Input.antt =====
-- The parts of crates/hyprpilot-input.
pub mod Error
pub mod Keysyms
pub mod Buttons
pub mod Keys
