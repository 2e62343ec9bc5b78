-- ===== src/Daemon/Server/Stack.antt =====
-- Only the requests that record their inverse, and the undo, touch the undo stack and its file.
use hypr_pilot.Prelude.{Bool, true, false, ◌≡◌, refl, none, some, arith}
use hypr_pilot.Daemon.Protocol as P
use hypr_pilot.Daemon.Protocol.{Request}
use hypr_pilot.Daemon.Services.{Services, State}
use hypr_pilot.Daemon.Server.{
  input_type, input_keys, input_shortcut, input_mouse_move, input_mouse_click,
}
use hypr_pilot.Daemon.Server.Access.{a11y_tree, a11y_find}
use hypr_pilot.Daemon.Server.Snapshots.{
  diff_live, preview_live, restore_loaded, snapshot_list, snapshot_diff, snapshot_preview,
  snapshot_restore, rules_list, rules_validate,
}
use hypr_pilot.Daemon.Server.Requests.{handle_request}
use hypr_pilot.Daemon.Server.Unrecorded.{
  Same, diff_live-Keeps, either-Keeps, loaded-Keeps, preview_live-Keeps, restore_loaded-Keeps,
  run_bind-Keeps, same, snapshot_delete-Keeps, snapshot_save-Keeps, walk_resolved-Keeps,
}

-- The requests that record their inverse, and the undo.
unfoldable pub records : Request → Bool
records P.dispatch_kill_active = true
records (P.dispatch_close_window s) = true
records (P.dispatch_move_to_workspace w) = true
records (P.dispatch_move_to_workspace_silent w) = true
records P.undo = true
records _ = false

module _ {W R : Type 0} (svc : Services W R) where
  -- A request other than kill, close, the two moves to a workspace and the undo leaves the undo
  -- stack and its file as they are, whatever Hyprland and the other services answer.
  pub handle_request-Same :
      (r : Request) (st : State W R) → records r ≡ false → Same svc (handle_request svc r st).1 st
  unfolding handle_request records input_type input_keys input_shortcut input_mouse_move
      input_mouse_click a11y_tree a11y_find snapshot_diff snapshot_preview snapshot_restore
      snapshot_list rules_list rules_validate
  handle_request-Same P.dispatch_kill_active st h = absurd (ground (arith, h))
  handle_request-Same (P.dispatch_close_window s) st h = absurd (ground (arith, h))
  handle_request-Same (P.dispatch_move_to_workspace w) st h = absurd (ground (arith, h))
  handle_request-Same (P.dispatch_move_to_workspace_silent w) st h = absurd (ground (arith, h))
  handle_request-Same P.undo st h = absurd (ground (arith, h))
  handle_request-Same (P.snapshot_save n) st h = snapshot_save-Keeps svc n st
  handle_request-Same (P.snapshot_diff n) st h =
      loaded-Keeps svc n (diff_live svc) (diff_live-Keeps svc) st
  handle_request-Same (P.snapshot_preview n) st h =
      loaded-Keeps svc n (preview_live svc) (preview_live-Keeps svc) st
  handle_request-Same (P.snapshot_restore n) st h =
      loaded-Keeps svc n (restore_loaded svc n _) (restore_loaded-Keeps svc n _) st
  handle_request-Same (P.snapshot_delete n) st h = snapshot_delete-Keeps svc n st
  handle_request-Same (P.input_type t) st h =
      either-Keeps svc st.input_enabled _ _ st (same svc refl refl) (same svc refl refl)
  handle_request-Same (P.input_keys c) st h =
      either-Keeps svc st.input_enabled _ _ st (same svc refl refl) (same svc refl refl)
  handle_request-Same (P.input_shortcut c s) st h =
      either-Keeps svc st.input_enabled _ _ st (same svc refl refl) (same svc refl refl)
  handle_request-Same (P.input_mouse_move x y a) st h =
      either-Keeps svc st.input_enabled _ _ st (same svc refl refl) (same svc refl refl)
  handle_request-Same (P.input_mouse_click b) st h =
      either-Keeps svc st.input_enabled _ _ st (same svc refl refl) (same svc refl refl)
  handle_request-Same (P.a11y_tree p n) st h = walk_resolved-Keeps svc p none _ st
  handle_request-Same (P.a11y_find p q r n) st h = walk_resolved-Keeps svc p (some q) _ st
  handle_request-Same (P.run_bind c s d) st h = run_bind-Keeps svc c s d st
  handle_request-Same _ st h = same svc refl refl
