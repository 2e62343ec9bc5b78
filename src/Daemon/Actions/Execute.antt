-- ===== src/Daemon/Actions/Execute.antt =====
-- What an action sends to Hyprland, and which errors it can return.
use hypr_pilot.Prelude.{
  ◌≡◌, refl, ◌↔◌, ◌⊎◌, ◌++◌, false, Text, codes, eq_text, trim, first_word, ok, err, show_i32,
}
use hypr_pilot.Core.Error.{rejected, unknown_dispatcher}
use hypr_pilot.Core.Connection
use hypr_pilot.Core.Connection.{Send, as_letter, mode_number, dispatch}
use hypr_pilot.Core.Connection.Laws.{IsAccepted, dispatch-ok_iff, dispatch-rejected}
use hypr_pilot.Core.WindowSelector
use hypr_pilot.Core.WorkspaceRef
use hypr_pilot.Daemon.Actions.{
  Action, focus_window, close_window, kill_active, cycle_next, cycle_prev, switch_workspace,
  move_to_workspace, move_to_workspace_silent, toggle_floating, set_fullscreen, center_active,
  pin_active, move_active, resize_active, swap_active, exec, focus_monitor,
  move_workspace_to_monitor, execute,
}

-- Hyprland's dispatcher for each action.
pub verb : Action → Text
verb (focus_window s) = codes "focuswindow"
verb (close_window s) = codes "closewindow"
verb kill_active = codes "killactive"
verb cycle_next = codes "cyclenext"
verb cycle_prev = codes "cyclenext"
verb (switch_workspace w) = codes "workspace"
verb (move_to_workspace w) = codes "movetoworkspace"
verb (move_to_workspace_silent w) = codes "movetoworkspacesilent"
verb toggle_floating = codes "togglefloating"
verb (set_fullscreen mode) = codes "fullscreen"
verb center_active = codes "centerwindow"
verb pin_active = codes "pin"
verb (move_active d) = codes "movewindow"
verb (resize_active dx dy) = codes "resizeactive"
verb (swap_active d) = codes "swapwindow"
verb (exec cmd) = codes "exec"
verb (focus_monitor m) = codes "focusmonitor"
verb (move_workspace_to_monitor m) = codes "movecurrentworkspacetomonitor"

-- The dispatcher's argument with the space before it.
argument : Action → Text
argument (focus_window s) = codes " " ++ WindowSelector.encode s
argument (close_window s) = codes " " ++ WindowSelector.encode s
argument cycle_prev = codes " prev"
argument (switch_workspace w) = codes " " ++ WorkspaceRef.encode w
argument (move_to_workspace w) = codes " " ++ WorkspaceRef.encode w
argument (move_to_workspace_silent w) = codes " " ++ WorkspaceRef.encode w
argument (set_fullscreen mode) = codes " " ++ mode_number mode
argument (move_active d) = codes " " ++ as_letter d
argument (resize_active dx dy) = codes " " ++ show_i32 dx ++ codes " " ++ show_i32 dy
argument (swap_active d) = codes " " ++ as_letter d
argument (exec cmd) = codes " " ++ cmd
argument (focus_monitor m) = codes " " ++ m
argument (move_workspace_to_monitor m) = codes " " ++ m
argument a = codes ""

unfoldable pub command : Action → Text
unfolding verb argument
command a = verb a ++ argument a

first_word-command : (a : Action) → first_word (command a) ≡ verb a
unfolding first_word command
first_word-command (focus_window s) = refl
first_word-command _ = refl

module _ {W : Type 0} (send_raw : Send W) where
  execute-dispatch : (a : Action) → execute send_raw a ≡ dispatch send_raw (command a)
  unfolding execute command
  execute-dispatch (focus_window s) = unfold Connection.focus_window in refl
  execute-dispatch (close_window s) = unfold Connection.close_window in refl
  execute-dispatch kill_active = unfold Connection.kill_active in refl
  execute-dispatch cycle_next = unfold Connection.cycle_next in refl
  execute-dispatch cycle_prev = unfold Connection.cycle_prev in refl
  execute-dispatch (switch_workspace w) = unfold Connection.switch_workspace in refl
  execute-dispatch (move_to_workspace w) = unfold Connection.move_active_to_workspace in refl
  execute-dispatch (move_to_workspace_silent w) =
      unfold Connection.move_active_to_workspace_silent in refl
  execute-dispatch toggle_floating = unfold Connection.toggle_floating in refl
  execute-dispatch (set_fullscreen mode) = unfold Connection.set_fullscreen in refl
  execute-dispatch center_active = unfold Connection.center_active in refl
  execute-dispatch pin_active = unfold Connection.pin_active in refl
  execute-dispatch (move_active d) = unfold Connection.move_active in refl
  execute-dispatch (resize_active dx dy) = unfold Connection.resize_active in refl
  execute-dispatch (swap_active d) = unfold Connection.swap_active in refl
  execute-dispatch (exec cmd) = unfold Connection.exec in refl
  execute-dispatch (focus_monitor m) = unfold Connection.focus_monitor in refl
  execute-dispatch (move_workspace_to_monitor m) =
      unfold Connection.move_workspace_to_monitor in refl

  -- An action sends one command, leaves Hyprland as that command leaves it, and succeeds exactly
  -- when Hyprland accepts the command.
  pub execute-ok_iff :
      (a : Action) (w : W)
      → ((execute send_raw a w).0 ≡ ok tt
          ↔ IsAccepted (send_raw (codes "dispatch " ++ command a) w).0)
        × ((execute send_raw a w).1 ≡ (send_raw (codes "dispatch " ++ command a) w).1)
  execute-ok_iff a w =
      rw (execute-dispatch a) (dispatch-ok_iff send_raw (command a) w, unfold dispatch in refl)

  -- A reply that is not `ok` up to white space becomes an error that names the dispatcher of the
  -- action, whatever the argument, and with a message also the trimmed reply.
  pub execute-rejected :
      (a : Action) (w : W) (raw : Text)
      → (send_raw (codes "dispatch " ++ command a) w).0 ≡ ok raw
      → eq_text (trim raw) (codes "ok") ≡ false
      → ((execute send_raw a w).0 ≡ err (unknown_dispatcher (verb a)))
        ⊎ ((execute send_raw a w).0 ≡ err (rejected (verb a) (trim raw)))
  execute-rejected a w raw e n =
      rw (execute-dispatch a, ← first_word-command a)
        (dispatch-rejected send_raw (command a) w raw e n)
