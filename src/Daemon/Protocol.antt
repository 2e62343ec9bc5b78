-- ===== src/Daemon/Protocol.antt =====
-- crates/hyprpilot-daemon/src/protocol.rs: the requests of the daemon's clients. A `usize` is a
-- natural number.
use hypr_pilot.Prelude.{ℕ, ℤ, Bool, Option, Text}
use hypr_pilot.Core.WindowSelector.{WindowSelector}
use hypr_pilot.Core.WorkspaceRef.{WorkspaceRef}
use hypr_pilot.Core.Connection.{Direction, FullscreenMode}
use hypr_pilot.Input.Keys.{KeyCombo}
use hypr_pilot.Input.Buttons.{MouseButton}

pub data Request : Type 0 where
  ping shutdown : Request
  query_clients query_workspaces query_monitors query_active_window : Request
  query_active_workspace query_version query_cursor_pos query_binds : Request
  dispatch_kill_active : Request
  dispatch_close_window : (selector : WindowSelector) → Request
  dispatch_focus_window : (selector : WindowSelector) → Request
  dispatch_cycle_next dispatch_cycle_prev : Request
  dispatch_switch_workspace : (workspace : WorkspaceRef) → Request
  dispatch_move_to_workspace : (workspace : WorkspaceRef) → Request
  dispatch_move_to_workspace_silent : (workspace : WorkspaceRef) → Request
  dispatch_toggle_floating : Request
  dispatch_fullscreen : (mode : FullscreenMode) → Request
  dispatch_center_active dispatch_pin_active : Request
  dispatch_move_active : (direction : Direction) → Request
  dispatch_resize_active : (dx dy : ℤ) → Request
  dispatch_swap_active : (direction : Direction) → Request
  dispatch_exec : (command : Text) → Request
  dispatch_focus_monitor : (name : Text) → Request
  dispatch_move_workspace_to_monitor : (monitor : Text) → Request
  undo undo_list : Request
  snapshot_save : (name : Text) → Request
  snapshot_list : Request
  snapshot_diff : (name : Text) → Request
  snapshot_preview : (name : Text) → Request
  snapshot_restore : (name : Text) → Request
  snapshot_delete : (name : Text) → Request
  rules_list rules_validate rules_path : Request
  input_type : (text : Text) → Request
  input_keys : (combo : KeyCombo) → Request
  input_shortcut : (combo : KeyCombo) (selector : WindowSelector) → Request
  input_mouse_move : (x y : ℤ) (absolute : Bool) → Request
  input_mouse_click : (button : MouseButton) → Request
  a11y_tree : (pid : Option ℤ) (max_nodes : Option ℕ) → Request
  a11y_find : (pid : Option ℤ) (query : Text) (role : Option Text) (max_nodes : Option ℕ) → Request
  run_bind : (combo : KeyCombo) (submap : Option Text) (dry_run : Bool) → Request
