-- ===== src/Tests/Recorded.antt =====
-- crates/hyprpilot-daemon/src/server.rs: the theorems at concrete inputs.
use hypr_pilot.Prelude.{
  ℕ, suc, ◌≡◌, refl, true, none, some, List, [], ◌∷◌, ◌++◌, codes, ok, pos, arith, false, trim,
  eq_text,
}
use hypr_pilot.Core.Connection.{Send, dispatch}
use hypr_pilot.Core.WindowSelector
use hypr_pilot.Core.WorkspaceRef
use hypr_pilot.Core.Types.{Client}
use hypr_pilot.Core.Queries
use hypr_pilot.Daemon.Undo.{then_io, UndoEntry, UndoStack, missing, spawn}
use hypr_pilot.Daemon.Replies.{failure}
use hypr_pilot.Daemon.Recorded.{
  Host, State, kill_active_recorded, close_window_recorded, move_to_workspace_recorded, send_move,
  undo,
}
use hypr_pilot.Daemon.Recorded.Logs.{Logs, recorded-Logs}
use hypr_pilot.Daemon.Recorded.Draining.{Drains, undos, undos-Drains}
use hypr_pilot.Daemon.Recorded.Undoing.{command_back, undo-move_to_workspace_recorded}

abbrev accepts : Send ℕ
accepts text w = (ok (codes "ok"), suc w)

abbrev client : Client
client = record {
  address = codes "0x1";
  mapped = true;
  hidden = false;
  at = (pos 0, pos 0);
  size = (pos 1, pos 1);
  workspace = record { id = pos 3; name = codes "3" };
  floating = false;
  monitor = pos 0;
  class = codes "kitty";
  title = codes "sh";
  initial_class = codes "kitty";
  initial_title = codes "sh";
  pid = pos 9;
  xwayland = false;
  pinned = false;
  fullscreen = pos 0;
  grouped = [];
  tags = [];
  focus_history_id = pos 0;
}

-- One window, whose process was started as `sh`, and a serialisation that keeps the entries.
abbrev host : Host ℕ (List UndoEntry)
host = record {
  send_raw = accepts;
  read_active = λ raw. ok (some client);
  read_clients = λ raw. ok (client ∷ []);
  proc_cmdline = λ pid. some (codes "sh" ++ 0 ∷ []);
  from_utf8_lossy = λ s. s;
  to_vec = λ es. es;
}

abbrev entry : UndoEntry
entry = record { timestamp_unix = pos 1; description = codes "a"; inverse = spawn (codes "sh") }

abbrev stack : UndoStack
stack = record { entries = entry ∷ []; capacity = 2; persist_path = none }

abbrev state : State ℕ (List UndoEntry)
state = record { hypr = 0; undo = stack; disk = λ path. missing }

abbrev to_two : WorkspaceRef.WorkspaceRef
to_two = WorkspaceRef.id (pos 2)

recorded-Logs_example :
    Logs host (pos 5) true state (kill_active_recorded host (pos 5) true state)
    × Logs host
        (pos 5)
        true
        state
        (close_window_recorded host (pos 5) true (WindowSelector.class (codes "kitty")) state)
    × Logs host (pos 5) true state (move_to_workspace_recorded host (pos 5) true to_two true state)
recorded-Logs_example =
    recorded-Logs host (pos 5) true state (WindowSelector.class (codes "kitty")) to_two true

abbrev newer : UndoEntry
newer = record { timestamp_unix = pos 2; description = codes "b"; inverse = spawn (codes "ls") }

abbrev full : State ℕ (List UndoEntry)
full = record state { undo = record stack { entries = entry ∷ newer ∷ [] } }

undos-Drains_example :
    Drains host (pos 5) true full [] (newer ∷ entry ∷ []) (undos host (pos 5) true 2 full)
    × (undo host (pos 5) true (undos host (pos 5) true 2 full).1 ≡ (
      failure (codes "undo_empty") (codes "undo stack is empty"),
      (undos host (pos 5) true 2 full).1,
    ))
undos-Drains_example = undos-Drains host (pos 5) true full (newer ∷ entry ∷ []) refl

asked : Queries.active_window accepts host.read_active 0 ≡ (ok (some client), 1)
unfolding Queries.active_window
asked = refl

accepted : send_move host (pos 5) true to_two true 1 ≡ (ok tt, 2)
unfolding eq_text trim hypr_pilot.Core.Connection.move_active_to_workspace_silent
    hypr_pilot.Core.Connection.dispatch
accepted = refl

undo-move_to_workspace_recorded_example :
    ((undo host
        (pos 5)
        true
        (move_to_workspace_recorded host (pos 5) true to_two true state).1).1.undo.entries
      ≡ stack.entries)
    × ((undo host
          (pos 5)
          true
          (move_to_workspace_recorded host (pos 5) true to_two true state).1).1.hypr
        ≡ (then_io accepts
            (dispatch accepts (
              codes "focuswindow " ++ WindowSelector.encode (WindowSelector.address (codes "0x1"))))
            (dispatch accepts (command_back client true))
            2).1)
undo-move_to_workspace_recorded_example =
    undo-move_to_workspace_recorded host (pos 5) true state to_two true client 1 2 (omega arith)
      asked accepted
