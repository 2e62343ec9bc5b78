-- ===== src/Mcp/Tools/Arms.antt =====
-- crates/hyprpilot-mcp/src/tools.rs, `dispatch`: one arm for each tool. Each arm reads the arguments
-- into its struct first; `body` is what it does with them.
use hypr_pilot.Prelude.{
  some, [], ◌++◌, Text, codes, is_empty, is_some, trim, Result, ok, err, map_err, ◌>>=◌, ◌>>◌,
  if◌then◌else◌, show_ℕ, show_i32,
}
use hypr_pilot.Core.WindowSelector
use hypr_pilot.Core.WindowSelector.{WindowSelector}
use hypr_pilot.Core.WorkspaceRef
use hypr_pilot.Core.WorkspaceRef.{WorkspaceRef}
use hypr_pilot.Input.Keys
use hypr_pilot.Daemon.Protocol as P
use hypr_pilot.Daemon.Protocol.{Request}
use hypr_pilot.Mcp.Tools.Args.{
  default_true, or_default, dry, flag, default_lang, default_psm, default_scan_psm,
  default_min_confidence, SelectorArgs, WorkspaceArgs, DirectionArgs, ResizeArgs, FullscreenArgs,
  FocusMonitorArgs, MonitorArgs, ExecArgs, SnapshotNameArgs, InputTextArgs, InputKeysArgs,
  InputShortcutArgs, InputMouseMoveArgs, InputMouseClickArgs, ScreenshotArgs, ScreenshotRegionArgs,
  ScreenshotMonitorArgs, OcrScreenArgs, OcrRegionArgs, FindTextPositionArgs, ClickTextArgs,
  A11yTreeArgs, A11yFindArgs, A11yClickArgs, RunBindArgs, SnapshotMutArgs,
}
use hypr_pilot.Mcp.Tools.Kinds.{Kind, Args, no_args, mut_no_args}
use hypr_pilot.Mcp.Tools.Ops.{
  CaptureOp, OcrOp, Dispatch, DispatchError, direction_of, debug_direction, mode_of, mode_name,
  format_of, debug_button, parse_psm, checked_region, build_optional_region,
  reject_region_with_active_window, parse_combo, tool_button, optional_button, byte_len, truncate,
  forward_or_preview, forward_or_preview_static, full, screen, forward, preview_snapshot_restore,
  capture, ocr, find_text, click_text, a11y_click, invalid_args,
}

pub record Arm : Type 0 where
  pub name : Text
  pub kind : Kind
  pub body : Text → Args kind → Result Dispatch DispatchError

-- `parse_no_args`
unfoldable pub no_args_arm : Text → Request → Arm
no_args_arm tool request = record {
  name = tool;
  kind = no_args;
  body = λ name p. ok (forward request);
}

-- `parse_mut_no_args`
unfoldable pub mut_no_args_arm : Text → Request → Arm
unfolding forward_or_preview_static dry
mut_no_args_arm tool request = record {
  name = tool;
  kind = mut_no_args;
  body = λ name p. ok (forward_or_preview_static (dry p.dry_run) request name);
}

-- `parse_selector`
unfoldable pub selector_body :
    (WindowSelector → Request) → Text → SelectorArgs → Result Dispatch DispatchError
unfolding forward_or_preview dry
selector_body build name p =
    map_err (invalid_args name) (WindowSelector.parse p.selector) >>= λ sel.
    forward_or_preview (dry p.dry_run) (build sel)
      (codes "would " ++ name ++ codes " on selector `" ++ p.selector ++ codes "`")

-- `parse_workspace`
unfoldable pub workspace_body :
    (WorkspaceRef → Request) → Text → WorkspaceArgs → Result Dispatch DispatchError
unfolding forward_or_preview dry
workspace_body build name p = map_err (invalid_args name) (WorkspaceRef.parse p.target) >>= λ ws.
    forward_or_preview (dry p.dry_run) (build ws)
      (codes "would " ++ name ++ codes " target=`" ++ p.target ++ codes "`")

unfoldable pub set_fullscreen : Text → FullscreenArgs → Result Dispatch DispatchError
unfolding forward_or_preview dry
set_fullscreen name p =
    forward_or_preview (dry p.dry_run) (P.dispatch_fullscreen (mode_of p.mode))
      (codes "would set fullscreen mode=" ++ mode_name p.mode)

unfoldable pub move_active : Text → DirectionArgs → Result Dispatch DispatchError
unfolding forward_or_preview dry
move_active name p =
    forward_or_preview (dry p.dry_run) (P.dispatch_move_active (direction_of p.direction))
      (codes "would move active window " ++ debug_direction p.direction)

unfoldable pub resize_active : Text → ResizeArgs → Result Dispatch DispatchError
unfolding forward_or_preview dry
resize_active name p = forward_or_preview (dry p.dry_run) (P.dispatch_resize_active p.dx p.dy) (
    codes "would resize active window by ("
    ++ show_i32 p.dx
    ++ codes ", "
    ++ show_i32 p.dy
    ++ codes ") px")

unfoldable pub swap_active : Text → DirectionArgs → Result Dispatch DispatchError
unfolding forward_or_preview dry
swap_active name p =
    forward_or_preview (dry p.dry_run) (P.dispatch_swap_active (direction_of p.direction))
      (codes "would swap active window " ++ debug_direction p.direction)

unfoldable pub focus_monitor : Text → FocusMonitorArgs → Result Dispatch DispatchError
unfolding forward_or_preview dry
focus_monitor name p =
    forward_or_preview (dry p.dry_run) (P.dispatch_focus_monitor p.name_or_direction)
      (codes "would focus monitor `" ++ p.name_or_direction ++ codes "`")

unfoldable pub move_workspace_to_monitor : Text → MonitorArgs → Result Dispatch DispatchError
unfolding forward_or_preview dry
move_workspace_to_monitor name p =
    forward_or_preview (dry p.dry_run) (P.dispatch_move_workspace_to_monitor p.monitor)
      (codes "would move focused workspace to monitor `" ++ p.monitor ++ codes "`")

unfoldable pub exec : Text → ExecArgs → Result Dispatch DispatchError
unfolding forward_or_preview dry
exec name p =
    forward_or_preview (dry p.dry_run) (P.dispatch_exec p.command)
      (codes "would spawn: " ++ p.command)

unfoldable pub snapshot_save : Text → SnapshotNameArgs → Result Dispatch DispatchError
snapshot_save name p = ok (forward (P.snapshot_save p.name))

unfoldable pub snapshot_diff : Text → SnapshotNameArgs → Result Dispatch DispatchError
snapshot_diff name p = ok (forward (P.snapshot_diff p.name))

unfoldable pub snapshot_restore : Text → SnapshotMutArgs → Result Dispatch DispatchError
unfolding dry
snapshot_restore name p =
    ok (
      if dry p.dry_run
      then preview_snapshot_restore p.name
      else forward (P.snapshot_restore p.name))

unfoldable pub snapshot_delete : Text → SnapshotNameArgs → Result Dispatch DispatchError
snapshot_delete name p = ok (forward (P.snapshot_delete p.name))

-- `debug` is the `Debug` form of a text.
unfoldable pub input_type : (Text → Text) → Text → InputTextArgs → Result Dispatch DispatchError
unfolding forward_or_preview dry
input_type debug name p = forward_or_preview (dry p.dry_run) (P.input_type p.text) (
    codes "would type "
    ++ show_ℕ (byte_len p.text)
    ++ codes " bytes into the focused window: "
    ++ debug (truncate p.text 80))

unfoldable pub input_keys : Text → InputKeysArgs → Result Dispatch DispatchError
unfolding forward_or_preview dry
input_keys name p = parse_combo name p.combo >>= λ combo.
    forward_or_preview (dry p.dry_run) (P.input_keys combo)
      (codes "would press `" ++ Keys.show combo ++ codes "` in the focused window")

unfoldable pub input_shortcut : Text → InputShortcutArgs → Result Dispatch DispatchError
unfolding forward_or_preview dry
input_shortcut name p = parse_combo name p.combo >>= λ combo.
    map_err (invalid_args name) (WindowSelector.parse p.selector) >>= λ selector.
    forward_or_preview (dry p.dry_run) (P.input_shortcut combo selector)
      (codes "would send `" ++ Keys.show combo ++ codes "` to `" ++ p.selector ++ codes "`")

unfoldable pub input_mouse_move : Text → InputMouseMoveArgs → Result Dispatch DispatchError
unfolding forward_or_preview dry
input_mouse_move name p =
    let mode = if flag p.absolute then codes "to absolute" else codes "by delta" in
    forward_or_preview (dry p.dry_run) (P.input_mouse_move p.x p.y (flag p.absolute)) (
      codes "would move mouse "
      ++ mode
      ++ codes " ("
      ++ show_i32 p.x
      ++ codes ", "
      ++ show_i32 p.y
      ++ codes ")")

unfoldable pub input_mouse_click : Text → InputMouseClickArgs → Result Dispatch DispatchError
unfolding forward_or_preview dry
input_mouse_click name p = tool_button name p.button >>= λ button.
    forward_or_preview (dry p.dry_run) (P.input_mouse_click button)
      (codes "would click " ++ debug_button button ++ codes " at current cursor position")

unfoldable pub screenshot : Text → ScreenshotArgs → Result Dispatch DispatchError
screenshot name p = ok (capture (full p.monitor (flag p.cursor) (format_of p.format)))

unfoldable pub screenshot_region : Text → ScreenshotRegionArgs → Result Dispatch DispatchError
screenshot_region name p =
    checked_region name (record { x = p.x; y = p.y; w = p.w; h = p.h }) >>= λ region.
    ok (capture (CaptureOp.of_region region (flag p.cursor) (format_of p.format)))

unfoldable pub screenshot_monitor : Text → ScreenshotMonitorArgs → Result Dispatch DispatchError
screenshot_monitor name p = ok (capture (full (some p.name) (flag p.cursor) (format_of p.format)))

unfoldable pub ocr_screen : Text → OcrScreenArgs → Result Dispatch DispatchError
ocr_screen name p =
    let lang = or_default default_lang p.lang in
    parse_psm name (or_default default_psm p.psm) >>= λ psm.
    ok (ocr (if flag p.active_window then OcrOp.active_window lang psm else screen lang psm))

unfoldable pub ocr_region : Text → OcrRegionArgs → Result Dispatch DispatchError
ocr_region name p = parse_psm name (or_default default_psm p.psm) >>= λ psm.
    checked_region name (record { x = p.x; y = p.y; w = p.w; h = p.h }) >>= λ region.
    ok (ocr (OcrOp.of_region region (or_default default_lang p.lang) psm))

-- The refusal of a blank query.
unfoldable pub require_query : Text → Text → Result Unit DispatchError
require_query tool query =
    if is_empty (trim query)
    then err (invalid_args tool (codes "query must not be empty"))
    else ok tt

unfoldable pub find_text_position : Text → FindTextPositionArgs → Result Dispatch DispatchError
find_text_position name p =
    require_query name p.query >> build_optional_region name p.x p.y p.w p.h >>= λ region.
    reject_region_with_active_window name (is_some region) (flag p.active_window)
    >> parse_psm name (or_default default_scan_psm p.psm)
    >>= λ psm. ok (
        find_text (record {
          query = p.query;
          region = region;
          active_window = flag p.active_window;
          case_sensitive = flag p.case_sensitive;
          min_confidence = or_default default_min_confidence p.min_confidence;
          psm = psm;
          lang = or_default default_lang p.lang;
        }))

unfoldable pub click_text_tool : Text → ClickTextArgs → Result Dispatch DispatchError
unfolding dry
click_text_tool name p =
    require_query name p.query >> build_optional_region name p.x p.y p.w p.h >>= λ region.
    reject_region_with_active_window name (is_some region) (flag p.active_window)
    >> parse_psm name (or_default default_scan_psm p.psm)
    >>= λ psm. optional_button name p.button >>= λ button. ok (
        click_text (record {
          query = p.query;
          region = region;
          active_window = flag p.active_window;
          case_sensitive = flag p.case_sensitive;
          min_confidence = or_default default_min_confidence p.min_confidence;
          psm = psm;
          lang = or_default default_lang p.lang;
          button = button;
          match_index = or_default 0 p.match_index;
          require_unique = or_default default_true p.require_unique;
          dry_run = dry p.dry_run;
        }))

unfoldable pub run_bind : Text → RunBindArgs → Result Dispatch DispatchError
unfolding dry
run_bind name p =
    parse_combo name p.combo >>= λ combo. ok (forward (P.run_bind combo p.submap (dry p.dry_run)))

unfoldable pub a11y_tree : Text → A11yTreeArgs → Result Dispatch DispatchError
a11y_tree name p = ok (forward (P.a11y_tree p.pid p.max_nodes))

unfoldable pub a11y_find : Text → A11yFindArgs → Result Dispatch DispatchError
a11y_find name p = ok (forward (P.a11y_find p.pid (or_default [] p.query) p.role p.max_nodes))

unfoldable pub a11y_click_tool : Text → A11yClickArgs → Result Dispatch DispatchError
unfolding dry
a11y_click_tool name p = require_query name p.query >> optional_button name p.button >>= λ button.
    ok (
      a11y_click (record {
        query = p.query;
        role = p.role;
        pid = p.pid;
        button = button;
        match_index = or_default 0 p.match_index;
        require_unique = or_default default_true p.require_unique;
        max_nodes = p.max_nodes;
        dry_run = dry p.dry_run;
      }))
