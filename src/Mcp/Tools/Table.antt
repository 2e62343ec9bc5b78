-- ===== src/Mcp/Tools/Table.antt =====
-- crates/hyprpilot-mcp/src/tools.rs, `dispatch`: the match on the tool's name. The arms stand in
-- the order of the source, and the first of the name is taken.
use hypr_pilot.Prelude.{
  Option, none, some, List, [], ◌∷◌, ◌++◌, Text, codes, eq_text, find, Result, err, ◌>>=◌,
}
use hypr_pilot.Core.WindowSelector.{WindowSelector}
use hypr_pilot.Core.WorkspaceRef.{WorkspaceRef}
use hypr_pilot.Daemon.Protocol as P
use hypr_pilot.Daemon.Protocol.{Request}
use hypr_pilot.Mcp.Tools.Kinds.{
  selector_args, workspace_args, direction_args, resize_args, fullscreen_args, focus_monitor_args,
  monitor_args, exec_args, snapshot_name_args, input_text_args, input_keys_args,
  input_shortcut_args, input_mouse_move_args, input_mouse_click_args, screenshot_args,
  screenshot_region_args, screenshot_monitor_args, ocr_screen_args, ocr_region_args,
  find_text_position_args, click_text_args, a11y_tree_args, a11y_find_args, a11y_click_args,
  run_bind_args, snapshot_mut_args,
}
use hypr_pilot.Mcp.Tools.Ops.{Dispatch, DispatchError, unknown_tool, Serde, parse_args}
use hypr_pilot.Mcp.Tools.Arms.{
  Arm, no_args_arm, mut_no_args_arm, selector_body, workspace_body, set_fullscreen, move_active,
  resize_active, swap_active, focus_monitor, move_workspace_to_monitor, exec, snapshot_save,
  snapshot_diff, snapshot_restore, snapshot_delete, input_type, input_keys, input_shortcut,
  input_mouse_move, input_mouse_click, screenshot, screenshot_region, screenshot_monitor,
  ocr_screen, ocr_region, find_text_position, click_text_tool, run_bind, a11y_tree, a11y_find,
  a11y_click_tool,
}

-- The queries, always forwarded.
unfoldable pub query_arms : List Arm
query_arms =
    no_args_arm (codes "query_clients") P.query_clients
    ∷ no_args_arm (codes "query_workspaces") P.query_workspaces
    ∷ no_args_arm (codes "query_monitors") P.query_monitors
    ∷ no_args_arm (codes "query_active_window") P.query_active_window
    ∷ no_args_arm (codes "query_active_workspace") P.query_active_workspace
    ∷ no_args_arm (codes "query_version") P.query_version
    ∷ no_args_arm (codes "query_cursor_pos") P.query_cursor_pos
    ∷ no_args_arm (codes "query_binds") P.query_binds
    ∷ no_args_arm (codes "undo_list") P.undo_list
    ∷ []

unfoldable pub selector_arm : Text → (WindowSelector → Request) → Arm
selector_arm tool build = record { name = tool; kind = selector_args; body = selector_body build }

unfoldable pub workspace_arm : Text → (WorkspaceRef → Request) → Arm
workspace_arm tool build = record {
  name = tool;
  kind = workspace_args;
  body = workspace_body build;
}

unfoldable pub window_arms : List Arm
unfolding selector_arm workspace_arm
window_arms =
    selector_arm (codes "focus_window") (λ sel. P.dispatch_focus_window sel)
    ∷ selector_arm (codes "close_window") (λ sel. P.dispatch_close_window sel)
    ∷ workspace_arm (codes "switch_workspace") (λ ws. P.dispatch_switch_workspace ws)
    ∷ workspace_arm (codes "move_to_workspace") (λ ws. P.dispatch_move_to_workspace ws)
    ∷ workspace_arm (codes "move_to_workspace_silent")
        (λ ws. P.dispatch_move_to_workspace_silent ws)
    ∷ mut_no_args_arm (codes "cycle_next") P.dispatch_cycle_next
    ∷ mut_no_args_arm (codes "cycle_prev") P.dispatch_cycle_prev
    ∷ mut_no_args_arm (codes "toggle_floating") P.dispatch_toggle_floating
    ∷ mut_no_args_arm (codes "center_active") P.dispatch_center_active
    ∷ mut_no_args_arm (codes "pin_active") P.dispatch_pin_active
    ∷ mut_no_args_arm (codes "kill_active") P.dispatch_kill_active
    ∷ mut_no_args_arm (codes "undo") P.undo
    ∷ []

unfoldable pub desktop_arms : List Arm
desktop_arms =
    record { name = codes "set_fullscreen"; kind = fullscreen_args; body = set_fullscreen }
    ∷ record { name = codes "move_active"; kind = direction_args; body = move_active }
    ∷ record { name = codes "resize_active"; kind = resize_args; body = resize_active }
    ∷ record { name = codes "swap_active"; kind = direction_args; body = swap_active }
    ∷ record { name = codes "focus_monitor"; kind = focus_monitor_args; body = focus_monitor }
    ∷ record {
      name = codes "move_workspace_to_monitor";
      kind = monitor_args;
      body = move_workspace_to_monitor;
    }
    ∷ record { name = codes "exec"; kind = exec_args; body = exec }
    ∷ []

unfoldable pub snapshot_arms : List Arm
snapshot_arms =
    record { name = codes "snapshot_save"; kind = snapshot_name_args; body = snapshot_save }
    ∷ no_args_arm (codes "snapshot_list") P.snapshot_list
    ∷ record { name = codes "snapshot_diff"; kind = snapshot_name_args; body = snapshot_diff }
    ∷ record { name = codes "snapshot_restore"; kind = snapshot_mut_args; body = snapshot_restore }
    ∷ record { name = codes "snapshot_delete"; kind = snapshot_name_args; body = snapshot_delete }
    ∷ no_args_arm (codes "rules_list") P.rules_list
    ∷ no_args_arm (codes "rules_validate") P.rules_validate
    ∷ no_args_arm (codes "rules_path") P.rules_path
    ∷ []

unfoldable pub input_arms : (Text → Text) → List Arm
input_arms debug =
    record { name = codes "input_type"; kind = input_text_args; body = input_type debug }
    ∷ record { name = codes "input_keys"; kind = input_keys_args; body = input_keys }
    ∷ record { name = codes "input_shortcut"; kind = input_shortcut_args; body = input_shortcut }
    ∷ record {
      name = codes "input_mouse_move";
      kind = input_mouse_move_args;
      body = input_mouse_move;
    }
    ∷ record {
      name = codes "input_mouse_click";
      kind = input_mouse_click_args;
      body = input_mouse_click;
    }
    ∷ []

unfoldable pub vision_arms : List Arm
vision_arms =
    record { name = codes "screenshot"; kind = screenshot_args; body = screenshot }
    ∷ record {
      name = codes "screenshot_region";
      kind = screenshot_region_args;
      body = screenshot_region;
    }
    ∷ record {
      name = codes "screenshot_monitor";
      kind = screenshot_monitor_args;
      body = screenshot_monitor;
    }
    ∷ record { name = codes "ocr_screen"; kind = ocr_screen_args; body = ocr_screen }
    ∷ record { name = codes "ocr_region"; kind = ocr_region_args; body = ocr_region }
    ∷ record {
      name = codes "find_text_position";
      kind = find_text_position_args;
      body = find_text_position;
    }
    ∷ record { name = codes "click_text"; kind = click_text_args; body = click_text_tool }
    ∷ []

unfoldable pub keymap_arms : List Arm
keymap_arms =
    record { name = codes "run_bind"; kind = run_bind_args; body = run_bind }
    ∷ record { name = codes "a11y_tree"; kind = a11y_tree_args; body = a11y_tree }
    ∷ record { name = codes "a11y_find"; kind = a11y_find_args; body = a11y_find }
    ∷ record { name = codes "a11y_click"; kind = a11y_click_args; body = a11y_click_tool }
    ∷ []

unfoldable pub arms : (Text → Text) → List Arm
unfolding query_arms window_arms desktop_arms snapshot_arms input_arms vision_arms keymap_arms
arms debug =
    query_arms
    ++ (window_arms
        ++ (desktop_arms ++ (snapshot_arms ++ (input_arms debug ++ (vision_arms ++ keymap_arms)))))

module _ {Value : Type 0} (serde : Serde Value) where
  unfoldable pub run_arm : Arm → Text → Value → Result Dispatch DispatchError
  unfolding parse_args
  run_arm arm name args = parse_args serde arm.kind name args >>= λ p. arm.body name p

  unfoldable pub dispatch_to : Option Arm → Text → Value → Result Dispatch DispatchError
  unfolding run_arm
  dispatch_to none name args = err (unknown_tool name)
  dispatch_to (some arm) name args = run_arm arm name args

  unfoldable pub dispatch : (Text → Text) → Text → Value → Result Dispatch DispatchError
  unfolding arms dispatch_to
  dispatch debug name args =
      dispatch_to (find (λ (a : Arm). eq_text a.name name) (arms debug)) name args
