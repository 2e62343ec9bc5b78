-- ===== src/Mcp/Tools/Groups.antt =====
-- A tool forwards only requests of its own capability group.
pub mod Windows
pub mod Each
use hypr_pilot.Prelude.{
  Bool, true, false, not, Option, none, some, List, [], ◌∷◌, ◌++◌, ◌≡◌, refl, All, All-append,
  Among, Every, find-Every, find-Among, find-holds, Text, Result, ok, err, bind-ok, ◌>>◌,
  ok-injective, arith, eq_text, eq_text_iff, find, Bool-cases, Option-cases, inl, inr, ap, sym, ◌∙◌,
  codes, map_err, is_some, if◌then◌else◌,
}
use mathlib.Core.Path.{subst}
use hypr_pilot.Core.WindowSelector
use hypr_pilot.Core.WindowSelector.{WindowSelector}
use hypr_pilot.Core.WorkspaceRef
use hypr_pilot.Core.WorkspaceRef.{WorkspaceRef}
use hypr_pilot.Daemon.Protocol as P
use hypr_pilot.Daemon.Protocol.{Request}
use hypr_pilot.Mcp.Capability.{ToolGroup, Profile, allows}
use hypr_pilot.Mcp.Capability as G
use hypr_pilot.Mcp.Server.{ToolDef, Server, find_tool, check_call, is_allowed}
use hypr_pilot.Mcp.Server.Gate.{judge-ok}
use hypr_pilot.Mcp.Tools.Args.{dry, default_lang, default_psm, default_scan_psm, flag, or_default}
use hypr_pilot.Mcp.Tools.Kinds.{
  Kind, Args, dry_run_of, has_dry_run, no_args, mut_no_args, selector_args, workspace_args,
  direction_args, resize_args, fullscreen_args, focus_monitor_args, monitor_args, exec_args,
  snapshot_name_args, input_text_args, input_keys_args, input_shortcut_args, input_mouse_move_args,
  input_mouse_click_args, screenshot_args, screenshot_region_args, screenshot_monitor_args,
  ocr_screen_args, ocr_region_args, find_text_position_args, click_text_args, a11y_tree_args,
  a11y_find_args, a11y_click_args, run_bind_args, snapshot_mut_args,
}
use hypr_pilot.Mcp.Tools.Ops.{
  CaptureOp, OcrOp, FindTextOp, ClickTextOp, A11yClickOp, Dispatch, DispatchError, Serde,
  parse_args, direction_of, debug_direction, mode_of, mode_name, format_of, debug_button, parse_psm,
  checked_region, build_optional_region, reject_region_with_active_window, parse_combo, tool_button,
  optional_button, width, byte_len, floor_boundary, truncate, forward_or_preview,
  forward_or_preview_static, full, screen, forward, preview, preview_snapshot_restore, capture, ocr,
  find_text, click_text, a11y_click, unknown_tool, invalid_args,
}
use hypr_pilot.Mcp.Tools.Arms.{
  Arm, no_args_arm, mut_no_args_arm, selector_body, workspace_body, set_fullscreen, move_active,
  resize_active, swap_active, focus_monitor, move_workspace_to_monitor, exec, snapshot_save,
  snapshot_diff, snapshot_restore, snapshot_delete, input_type, input_keys, input_shortcut,
  input_mouse_move, input_mouse_click, screenshot, screenshot_region, screenshot_monitor,
  ocr_screen, ocr_region, require_query, find_text_position, click_text_tool, run_bind, a11y_tree,
  a11y_find, a11y_click_tool,
}
use hypr_pilot.Mcp.Tools.Table.{
  query_arms, selector_arm, workspace_arm, window_arms, desktop_arms, snapshot_arms, input_arms,
  vision_arms, keymap_arms, arms, run_arm, dispatch_to, dispatch,
}
use hypr_pilot.Mcp.Tools.Registry.{registry, def}

-- The group that a request belongs to; `ping` and `shutdown` belong to no tool.
unfoldable pub request_group : Request → Option ToolGroup
request_group P.ping = none
request_group P.shutdown = none
request_group P.query_clients = some G.read
request_group P.query_workspaces = some G.read
request_group P.query_monitors = some G.read
request_group P.query_active_window = some G.read
request_group P.query_active_workspace = some G.read
request_group P.query_version = some G.read
request_group P.query_cursor_pos = some G.read
request_group P.query_binds = some G.read
request_group P.dispatch_kill_active = some G.destructive
request_group (P.dispatch_close_window s) = some G.destructive
request_group (P.dispatch_focus_window s) = some G.window
request_group P.dispatch_cycle_next = some G.window
request_group P.dispatch_cycle_prev = some G.window
request_group (P.dispatch_switch_workspace w) = some G.workspace
request_group (P.dispatch_move_to_workspace w) = some G.workspace
request_group (P.dispatch_move_to_workspace_silent w) = some G.workspace
request_group P.dispatch_toggle_floating = some G.window
request_group (P.dispatch_fullscreen m) = some G.window
request_group P.dispatch_center_active = some G.window
request_group P.dispatch_pin_active = some G.window
request_group (P.dispatch_move_active d) = some G.window
request_group (P.dispatch_resize_active x y) = some G.window
request_group (P.dispatch_swap_active d) = some G.window
request_group (P.dispatch_exec c) = some G.process
request_group (P.dispatch_focus_monitor n) = some G.workspace
request_group (P.dispatch_move_workspace_to_monitor m) = some G.workspace
request_group P.undo = some G.undo
request_group P.undo_list = some G.undo
request_group (P.snapshot_save n) = some G.snapshot
request_group P.snapshot_list = some G.snapshot
request_group (P.snapshot_diff n) = some G.snapshot
request_group (P.snapshot_preview n) = some G.snapshot
request_group (P.snapshot_restore n) = some G.snapshot
request_group (P.snapshot_delete n) = some G.snapshot
request_group P.rules_list = some G.rules
request_group P.rules_validate = some G.rules
request_group P.rules_path = some G.rules
request_group (P.input_type t) = some G.input
request_group (P.input_keys c) = some G.input
request_group (P.input_shortcut c s) = some G.input
request_group (P.input_mouse_move x y a) = some G.input
request_group (P.input_mouse_click b) = some G.input
request_group (P.a11y_tree p n) = some G.a11y
request_group (P.a11y_find p q r n) = some G.a11y
request_group (P.run_bind c s d) = some G.binds

-- What is forwarded.
abbrev pub sent : Dispatch → Option Request
sent (forward r) = some r
sent _ = none

abbrev pub group_of : Option ToolDef → Option ToolGroup
group_of none = none
group_of (some t) = some t.group

-- The group under which the registry has a name.
unfoldable pub registered_group : (Kind → Text) → Text → Option ToolGroup
unfolding registry
registered_group schema_for name =
    group_of (find (λ (t : ToolDef). eq_text t.name name) (registry schema_for))

-- If something is forwarded, it is of the group.
abbrev pub Within : Option ToolGroup → Dispatch → Type 0
Within g d = Every (λ (q : Request). request_group q ≡ g) (sent d)

abbrev pub Grouped : (Kind → Text) → Arm → Type 0
Grouped schema_for a =
    (name : Text) (p : Args a.kind) (d : Dispatch)
    → a.body name p ≡ ok d
    → Within (registered_group schema_for a.name) d

value-Within :
    (g : Option ToolGroup) (e d : Dispatch)
    → Within g e
    → ◌≡◌ {A = Result Dispatch DispatchError} (ok e) (ok d)
    → Within g d
value-Within g e d w h = subst (Within g) (ok-injective e d h) w

choice-Within :
    (g : Option ToolGroup) (b : Bool) (q : Request) (e d : Dispatch)
    → Within g e
    → request_group q ≡ g
    → ◌≡◌ {A = Result Dispatch DispatchError} (ok (if b then e else forward q)) (ok d)
    → Within g d
choice-Within g true q e d w same h = value-Within g e d w h
choice-Within g false q e d w same h = value-Within g (forward q) d same h

fp-Within :
    (g : Option ToolGroup) (b : Bool) (q : Request) (t : Text) (d : Dispatch)
    → request_group q ≡ g
    → forward_or_preview b q t ≡ ok d
    → Within g d
unfolding forward_or_preview
fp-Within g b q t d same h = choice-Within g b q (preview t) d tt same h

no_args-Grouped :
    (schema_for : Kind → Text) (tool : Text) (q : Request)
    → request_group q ≡ registered_group schema_for tool
    → Grouped schema_for (no_args_arm tool q)
unfolding no_args_arm
no_args-Grouped schema_for tool q same name p d h = value-Within _ (forward q) d same h

mut_no_args-Grouped :
    (schema_for : Kind → Text) (tool : Text) (q : Request)
    → request_group q ≡ registered_group schema_for tool
    → Grouped schema_for (mut_no_args_arm tool q)
unfolding mut_no_args_arm forward_or_preview_static
mut_no_args-Grouped schema_for tool q same name p d h =
    choice-Within _ (dry p.dry_run) q (preview (codes "would invoke " ++ name)) d tt same h

selector-Grouped :
    (schema_for : Kind → Text) (tool : Text) (build : WindowSelector → Request)
    → ((s : WindowSelector) → request_group (build s) ≡ registered_group schema_for tool)
    → Grouped schema_for (selector_arm tool build)
unfolding selector_arm selector_body
selector-Grouped schema_for tool build same name p d h =
    let r = bind-ok (map_err (invalid_args name) (WindowSelector.parse p.selector)) _ d h in
    fp-Within _ (dry p.dry_run) (build r.0) _ d (same r.0) r.2

workspace-Grouped :
    (schema_for : Kind → Text) (tool : Text) (build : WorkspaceRef → Request)
    → ((s : WorkspaceRef) → request_group (build s) ≡ registered_group schema_for tool)
    → Grouped schema_for (workspace_arm tool build)
unfolding workspace_arm workspace_body
workspace-Grouped schema_for tool build same name p d h =
    let r = bind-ok (map_err (invalid_args name) (WorkspaceRef.parse p.target)) _ d h in
    fp-Within _ (dry p.dry_run) (build r.0) _ d (same r.0) r.2
