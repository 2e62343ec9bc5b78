-- ===== src/Daemon/Server/Requests.antt =====
-- crates/hyprpilot-daemon/src/server.rs, `handle_request`.
use hypr_pilot.Prelude.{true, false}
use hypr_pilot.Core.Connection
use hypr_pilot.Daemon.Protocol as P
use hypr_pilot.Daemon.Protocol.{Request}
use hypr_pilot.Daemon.Replies as Replies
use hypr_pilot.Daemon.Replies.{Response, success}
use hypr_pilot.Daemon.Recorded as Recorded
use hypr_pilot.Daemon.Services.{Services}
use hypr_pilot.Daemon.Server.{
  Handler, core, void, from_core, input_type, input_keys, input_shortcut, input_mouse_move,
  input_mouse_click, run_bind,
}
use hypr_pilot.Daemon.Server.Access.{a11y_tree, a11y_find}
use hypr_pilot.Daemon.Server.Snapshots.{
  snapshot_save, snapshot_list, snapshot_diff, snapshot_preview, snapshot_restore, snapshot_delete,
  rules_list, rules_validate,
}

module _ {W R : Type 0} (svc : Services W R) where
  -- A handler that records its inverse, or undoes.
  abbrev pub recording : (Recorded.State W R → Response × Recorded.State W R) → Handler svc
  recording h st = let r = h st.recorded in (r.0, record st { recorded = r.1 })

  unfoldable pub handle_request : Request → Handler svc
  unfolding from_core
  handle_request P.ping st = (success Replies.pong, st)
  handle_request P.shutdown st = (success Replies.shutting_down, record st { stopping = true })
  handle_request P.query_clients st = core svc Replies.clients svc.cached_clients st
  handle_request P.query_workspaces st = core svc Replies.workspaces svc.cached_workspaces st
  handle_request P.query_monitors st = core svc Replies.monitors svc.cached_monitors st
  handle_request P.query_active_window st =
      core svc Replies.active_window svc.cached_active_window st
  handle_request P.query_active_workspace st =
      core svc Replies.active_workspace svc.cached_active_workspace st
  handle_request P.query_version st = core svc Replies.version svc.cached_version st
  handle_request P.query_cursor_pos st = core svc Replies.cursor_pos svc.cursor_position st
  handle_request P.query_binds st = core svc Replies.binds svc.cached_binds st
  handle_request P.dispatch_kill_active st =
      recording (Recorded.kill_active_recorded svc.host svc.now svc.wrote) st
  handle_request (P.dispatch_close_window s) st =
      recording (Recorded.close_window_recorded svc.host svc.now svc.wrote s) st
  handle_request (P.dispatch_move_to_workspace w) st =
      recording (Recorded.move_to_workspace_recorded svc.host svc.now svc.wrote w false) st
  handle_request (P.dispatch_move_to_workspace_silent w) st =
      recording (Recorded.move_to_workspace_recorded svc.host svc.now svc.wrote w true) st
  handle_request (P.dispatch_focus_window s) st =
      void svc (Connection.focus_window svc.host.send_raw s) st
  handle_request P.dispatch_cycle_next st = void svc (Connection.cycle_next svc.host.send_raw) st
  handle_request P.dispatch_cycle_prev st = void svc (Connection.cycle_prev svc.host.send_raw) st
  handle_request (P.dispatch_switch_workspace w) st =
      void svc (Connection.switch_workspace svc.host.send_raw w) st
  handle_request P.dispatch_toggle_floating st =
      void svc (Connection.toggle_floating svc.host.send_raw) st
  handle_request (P.dispatch_fullscreen m) st =
      void svc (Connection.set_fullscreen svc.host.send_raw m) st
  handle_request P.dispatch_center_active st =
      void svc (Connection.center_active svc.host.send_raw) st
  handle_request P.dispatch_pin_active st = void svc (Connection.pin_active svc.host.send_raw) st
  handle_request (P.dispatch_move_active d) st =
      void svc (Connection.move_active svc.host.send_raw d) st
  handle_request (P.dispatch_resize_active x y) st =
      void svc (Connection.resize_active svc.host.send_raw x y) st
  handle_request (P.dispatch_swap_active d) st =
      void svc (Connection.swap_active svc.host.send_raw d) st
  handle_request (P.dispatch_exec c) st = void svc (Connection.exec svc.host.send_raw c) st
  handle_request (P.dispatch_focus_monitor n) st =
      void svc (Connection.focus_monitor svc.host.send_raw n) st
  handle_request (P.dispatch_move_workspace_to_monitor m) st =
      void svc (Connection.move_workspace_to_monitor svc.host.send_raw m) st
  handle_request P.undo st = recording (Recorded.undo svc.host svc.now svc.wrote) st
  handle_request P.undo_list st = (Recorded.undo_list st.recorded, st)
  handle_request (P.snapshot_save n) st = snapshot_save svc n st
  handle_request P.snapshot_list st = snapshot_list svc st
  handle_request (P.snapshot_diff n) st = snapshot_diff svc n st
  handle_request (P.snapshot_preview n) st = snapshot_preview svc n st
  handle_request (P.snapshot_restore n) st = snapshot_restore svc n st
  handle_request (P.snapshot_delete n) st = snapshot_delete svc n st
  handle_request P.rules_list st = rules_list svc st
  handle_request P.rules_validate st = rules_validate svc st
  handle_request P.rules_path st = (success (Replies.rules_path svc.rules_path), st)
  handle_request (P.input_type t) st = input_type svc t st
  handle_request (P.input_keys c) st = input_keys svc c st
  handle_request (P.input_shortcut c s) st = input_shortcut svc c s st
  handle_request (P.input_mouse_move x y a) st = input_mouse_move svc x y a st
  handle_request (P.input_mouse_click b) st = input_mouse_click svc b st
  handle_request (P.a11y_tree p n) st = a11y_tree svc p n st
  handle_request (P.a11y_find p q r n) st = a11y_find svc p q r n st
  handle_request (P.run_bind c s d) st = run_bind svc c s d st
