-- ===== src/Mcp/Tools/DryRun.antt =====
-- A tool acts on the desktop only when its arguments say `dry_run: false`.
pub mod Windows
pub mod Each
use hypr_pilot.Prelude.{
  Bool, true, false, not, Option, none, some, List, [], ◌∷◌, ◌≡◌, refl, All, All-append, Every,
  find-Every, Text, Result, ok, err, bind-ok, ok-injective, arith, eq_text, find, find-holds,
  Bool-cases, inl, inr, ap, sym, ◌∙◌, codes, map_err, is_some,
}
use mathlib.Core.Path.{subst}
use hypr_pilot.Core.WindowSelector
use hypr_pilot.Core.WindowSelector.{WindowSelector}
use hypr_pilot.Core.WorkspaceRef
use hypr_pilot.Core.WorkspaceRef.{WorkspaceRef}
use hypr_pilot.Daemon.Protocol as P
use hypr_pilot.Daemon.Protocol.{Request}
use hypr_pilot.Mcp.Tools.Args.{dry}
use hypr_pilot.Mcp.Tools.Kinds.{
  Kind, Args, dry_run_of, has_dry_run, no_args, mut_no_args, selector_args, workspace_args,
  direction_args, resize_args, fullscreen_args, focus_monitor_args, monitor_args, exec_args,
  snapshot_name_args, input_text_args, input_keys_args, input_shortcut_args, input_mouse_move_args,
  input_mouse_click_args, screenshot_args, screenshot_region_args, screenshot_monitor_args,
  ocr_screen_args, ocr_region_args, find_text_position_args, click_text_args, a11y_tree_args,
  a11y_find_args, a11y_click_args, run_bind_args, snapshot_mut_args,
}
use hypr_pilot.Mcp.Tools.Ops.{
  CaptureOp, OcrOp, FindTextOp, ClickTextOp, A11yClickOp, Dispatch, DispatchError, Serde,
  parse_args, direction_of, debug_direction, mode_of, mode_name, format_of, debug_button, parse_psm,
  checked_region, build_optional_region, reject_region_with_active_window, parse_combo, tool_button,
  optional_button, width, byte_len, floor_boundary, truncate, forward_or_preview,
  forward_or_preview_static, full, screen, forward, preview, preview_snapshot_restore, capture, ocr,
  find_text, click_text, a11y_click, unknown_tool, invalid_args,
}
use hypr_pilot.Mcp.Tools.Arms.{
  Arm, no_args_arm, mut_no_args_arm, selector_body, workspace_body, set_fullscreen, move_active,
  resize_active, swap_active, focus_monitor, move_workspace_to_monitor, exec, snapshot_save,
  snapshot_diff, snapshot_restore, snapshot_delete, input_type, input_keys, input_shortcut,
  input_mouse_move, input_mouse_click, screenshot, screenshot_region, screenshot_monitor,
  ocr_screen, ocr_region, require_query, find_text_position, click_text_tool, run_bind, a11y_tree,
  a11y_find, a11y_click_tool,
}
use hypr_pilot.Mcp.Tools.Table.{
  query_arms, selector_arm, workspace_arm, window_arms, desktop_arms, snapshot_arms, input_arms,
  vision_arms, keymap_arms, arms, run_arm, dispatch_to, dispatch,
}

-- The requests that change the desktop: every dispatcher, the undo, a restore, input, and a bind
-- that is not only looked up.
unfoldable pub acts_request : Request → Bool
acts_request P.dispatch_kill_active = true
acts_request (P.dispatch_close_window s) = true
acts_request (P.dispatch_focus_window s) = true
acts_request P.dispatch_cycle_next = true
acts_request P.dispatch_cycle_prev = true
acts_request (P.dispatch_switch_workspace w) = true
acts_request (P.dispatch_move_to_workspace w) = true
acts_request (P.dispatch_move_to_workspace_silent w) = true
acts_request P.dispatch_toggle_floating = true
acts_request (P.dispatch_fullscreen m) = true
acts_request P.dispatch_center_active = true
acts_request P.dispatch_pin_active = true
acts_request (P.dispatch_move_active d) = true
acts_request (P.dispatch_resize_active x y) = true
acts_request (P.dispatch_swap_active d) = true
acts_request (P.dispatch_exec c) = true
acts_request (P.dispatch_focus_monitor n) = true
acts_request (P.dispatch_move_workspace_to_monitor m) = true
acts_request P.undo = true
acts_request (P.snapshot_restore n) = true
acts_request (P.input_type t) = true
acts_request (P.input_keys c) = true
acts_request (P.input_shortcut c s) = true
acts_request (P.input_mouse_move x y a) = true
acts_request (P.input_mouse_click b) = true
acts_request (P.run_bind c s dry_run) = not dry_run
acts_request _ = false

-- The outcomes that lead to such a request.
unfoldable pub acts : Dispatch → Bool
unfolding acts_request
acts (forward r) = acts_request r
acts (click_text op) = not op.dry_run
acts (a11y_click op) = not op.dry_run
acts _ = false

-- The arm acts only if `dry_run` is given as false.
abbrev pub Guarded : Arm → Type 0
Guarded a =
    (name : Text) (p : Args a.kind) (d : Dispatch)
    → a.body name p ≡ ok d
    → acts d ≡ true
    → dry_run_of a.kind p ≡ some false

acts_value :
    (e d : Dispatch)
    → ◌≡◌ {A = Result Dispatch DispatchError} (ok e) (ok d)
    → acts d ≡ true
    → acts e ≡ true
acts_value e d h a = subst (λ x. acts x ≡ true) (sym (ok-injective e d h)) a

-- The two ways to end an arm that may act.
forward_or_preview-Guarded :
    (o : Option Bool) (r : Request) (t : Text) (d : Dispatch)
    → forward_or_preview (dry o) r t ≡ ok d
    → acts d ≡ true
    → o ≡ some false
unfolding forward_or_preview dry acts
forward_or_preview-Guarded none r t d h a = absurd (ground (arith, acts_value _ d h a))
forward_or_preview-Guarded (some true) r t d h a = absurd (ground (arith, acts_value _ d h a))
forward_or_preview-Guarded (some false) r t d h a = refl

static-Guarded :
    (o : Option Bool) (r : Request) (t : Text) (d : Dispatch)
    → ◌≡◌ {A = Result Dispatch DispatchError} (ok (forward_or_preview_static (dry o) r t)) (ok d)
    → acts d ≡ true
    → o ≡ some false
unfolding forward_or_preview_static dry acts
static-Guarded none r t d h a = absurd (ground (arith, acts_value _ d h a))
static-Guarded (some true) r t d h a = absurd (ground (arith, acts_value _ d h a))
static-Guarded (some false) r t d h a = refl

not-dry : (o : Option Bool) → not (dry o) ≡ true → o ≡ some false
unfolding dry
not-dry none h = absurd (ground (arith, h))
not-dry (some true) h = absurd (ground (arith, h))
not-dry (some false) h = refl

selector_body-Guarded :
    (tool : Text) (build : WindowSelector → Request) → Guarded (selector_arm tool build)
unfolding selector_arm selector_body dry_run_of
selector_body-Guarded tool build name p d h a =
    let r = bind-ok (map_err (invalid_args name) (WindowSelector.parse p.selector)) _ d h in
    forward_or_preview-Guarded p.dry_run (build r.0) _ d r.2 a

workspace_body-Guarded :
    (tool : Text) (build : WorkspaceRef → Request) → Guarded (workspace_arm tool build)
unfolding workspace_arm workspace_body dry_run_of
workspace_body-Guarded tool build name p d h a =
    let r = bind-ok (map_err (invalid_args name) (WorkspaceRef.parse p.target)) _ d h in
    forward_or_preview-Guarded p.dry_run (build r.0) _ d r.2 a

mut_no_args-Guarded : (tool : Text) (r : Request) → Guarded (mut_no_args_arm tool r)
unfolding mut_no_args_arm dry_run_of
mut_no_args-Guarded tool r name p d h a = static-Guarded p.dry_run r name d h a

-- An arm that forwards what does not act.
no_args-Guarded :
    (tool : Text) (r : Request) → acts_request r ≡ false → Guarded (no_args_arm tool r)
unfolding no_args_arm acts
no_args-Guarded tool r quiet name p d h a = absurd (ground (arith, acts_value (forward r) d h a))
