-- ===== src/Mcp/Tools/Kinds.antt =====
-- crates/hyprpilot-mcp/src/tools.rs: the argument structs by name, and which of them have `dry_run`.
use hypr_pilot.Prelude.{Bool, true, false, Option, none}
use hypr_pilot.Mcp.Tools.Args.{
  MutNoArgs, SelectorArgs, WorkspaceArgs, DirectionArgs, ResizeArgs, FullscreenArgs,
  FocusMonitorArgs, MonitorArgs, ExecArgs, SnapshotNameArgs, InputTextArgs, InputKeysArgs,
  InputShortcutArgs, InputMouseMoveArgs, InputMouseClickArgs, ScreenshotArgs, ScreenshotRegionArgs,
  ScreenshotMonitorArgs, OcrScreenArgs, OcrRegionArgs, FindTextPositionArgs, ClickTextArgs,
  A11yTreeArgs, A11yFindArgs, A11yClickArgs, RunBindArgs, SnapshotMutArgs,
}

-- The structs by name.
pub data Kind : Type 0 where
  no_args mut_no_args selector_args workspace_args direction_args resize_args fullscreen_args
        focus_monitor_args monitor_args exec_args snapshot_name_args input_text_args input_keys_args
        input_shortcut_args input_mouse_move_args input_mouse_click_args screenshot_args
        screenshot_region_args screenshot_monitor_args ocr_screen_args ocr_region_args
        find_text_position_args click_text_args a11y_tree_args a11y_find_args a11y_click_args
        run_bind_args snapshot_mut_args :
      Kind

abbrev pub Args : Kind → Type 0
Args no_args = Unit
Args mut_no_args = MutNoArgs
Args selector_args = SelectorArgs
Args workspace_args = WorkspaceArgs
Args direction_args = DirectionArgs
Args resize_args = ResizeArgs
Args fullscreen_args = FullscreenArgs
Args focus_monitor_args = FocusMonitorArgs
Args monitor_args = MonitorArgs
Args exec_args = ExecArgs
Args snapshot_name_args = SnapshotNameArgs
Args input_text_args = InputTextArgs
Args input_keys_args = InputKeysArgs
Args input_shortcut_args = InputShortcutArgs
Args input_mouse_move_args = InputMouseMoveArgs
Args input_mouse_click_args = InputMouseClickArgs
Args screenshot_args = ScreenshotArgs
Args screenshot_region_args = ScreenshotRegionArgs
Args screenshot_monitor_args = ScreenshotMonitorArgs
Args ocr_screen_args = OcrScreenArgs
Args ocr_region_args = OcrRegionArgs
Args find_text_position_args = FindTextPositionArgs
Args click_text_args = ClickTextArgs
Args a11y_tree_args = A11yTreeArgs
Args a11y_find_args = A11yFindArgs
Args a11y_click_args = A11yClickArgs
Args run_bind_args = RunBindArgs
Args snapshot_mut_args = SnapshotMutArgs

-- The key `dry_run` as it was given.
unfoldable pub dry_run_of : (k : Kind) → Args k → Option Bool
dry_run_of no_args p = none
dry_run_of mut_no_args p = p.dry_run
dry_run_of selector_args p = p.dry_run
dry_run_of workspace_args p = p.dry_run
dry_run_of direction_args p = p.dry_run
dry_run_of resize_args p = p.dry_run
dry_run_of fullscreen_args p = p.dry_run
dry_run_of focus_monitor_args p = p.dry_run
dry_run_of monitor_args p = p.dry_run
dry_run_of exec_args p = p.dry_run
dry_run_of snapshot_name_args p = none
dry_run_of input_text_args p = p.dry_run
dry_run_of input_keys_args p = p.dry_run
dry_run_of input_shortcut_args p = p.dry_run
dry_run_of input_mouse_move_args p = p.dry_run
dry_run_of input_mouse_click_args p = p.dry_run
dry_run_of screenshot_args p = none
dry_run_of screenshot_region_args p = none
dry_run_of screenshot_monitor_args p = none
dry_run_of ocr_screen_args p = none
dry_run_of ocr_region_args p = none
dry_run_of find_text_position_args p = none
dry_run_of click_text_args p = p.dry_run
dry_run_of a11y_tree_args p = none
dry_run_of a11y_find_args p = none
dry_run_of a11y_click_args p = p.dry_run
dry_run_of run_bind_args p = p.dry_run
dry_run_of snapshot_mut_args p = p.dry_run

unfoldable pub has_dry_run : Kind → Bool
has_dry_run no_args = false
has_dry_run mut_no_args = true
has_dry_run selector_args = true
has_dry_run workspace_args = true
has_dry_run direction_args = true
has_dry_run resize_args = true
has_dry_run fullscreen_args = true
has_dry_run focus_monitor_args = true
has_dry_run monitor_args = true
has_dry_run exec_args = true
has_dry_run snapshot_name_args = false
has_dry_run input_text_args = true
has_dry_run input_keys_args = true
has_dry_run input_shortcut_args = true
has_dry_run input_mouse_move_args = true
has_dry_run input_mouse_click_args = true
has_dry_run screenshot_args = false
has_dry_run screenshot_region_args = false
has_dry_run screenshot_monitor_args = false
has_dry_run ocr_screen_args = false
has_dry_run ocr_region_args = false
has_dry_run find_text_position_args = false
has_dry_run click_text_args = true
has_dry_run a11y_tree_args = false
has_dry_run a11y_find_args = false
has_dry_run a11y_click_args = true
has_dry_run run_bind_args = true
has_dry_run snapshot_mut_args = true
