-- ===== src/Daemon/Recorded.antt =====
-- crates/hyprpilot-daemon/src/server.rs: the operations that record how to undo them, and the undo.
-- The lock of the stack is held for one operation of the stack, so each of these is one step here.
-- The time and whether the write of the file succeeds are arguments, `now` and `wrote`.
pub mod Logs
pub mod Undoing
pub mod Draining
use hypr_pilot.Prelude.{
  ℕ, ℤ, suc, Bool, true, false, Option, none, some, List, [], ◌∷◌, ◌++◌, find, any, reverse, eq_ℤ,
  Text, codes, eq_text, strip_prefix, Result, ok, err, show_i32, if◌then◌else◌,
}
use hypr_pilot.Core.Error.{
  Error, to_string, no_runtime_dir, no_instance, socket_missing, io, json, rejected,
  unknown_dispatcher, protocol, validation, not_found,
}
use hypr_pilot.Core.WindowSelector
use hypr_pilot.Core.WindowSelector.{WindowSelector, address, pid, class, title, tag, active}
use hypr_pilot.Core.WorkspaceRef
use hypr_pilot.Core.WorkspaceRef.{WorkspaceRef}
use hypr_pilot.Core.Types.{Client}
use hypr_pilot.Core.Connection
use hypr_pilot.Core.Connection.{Io, Send}
use hypr_pilot.Core.Queries
use hypr_pilot.Daemon.Replies.{
  UndoListEntry, Reply, Response, killed, closed, moved, undone, undo_entries, success, failure,
}
use hypr_pilot.Daemon.Shell.{read_proc_cmdline}
use hypr_pilot.Daemon.Undo
use hypr_pilot.Daemon.Undo.{
  InverseAction, spawn, move_to_workspace, UndoEntry, UndoStack, Disk, push, apply_inverse,
}

abbrev error_code : Error → Text
error_code (rejected verb message) = codes "hyprland_rejected"
error_code (unknown_dispatcher verb) = codes "hyprland_unknown_dispatcher"
error_code (io e) = codes "hyprland_io"
error_code (no_instance p) = codes "no_instance"
error_code no_runtime_dir = codes "no_instance"
error_code (socket_missing p) = codes "no_instance"
error_code _ = codes "internal"

unfoldable pub core_error : Error → Response
core_error e = failure (error_code e) (to_string e)

-- `normalize_addr` of the server: the address without `0x`
unfoldable pub bare_addr : Text → Text
bare_addr s = elim (strip_prefix (codes "0x") s) [ none ↦ s | some t ↦ t ]

unfoldable pub selector_matches : WindowSelector → Client → Bool
unfolding bare_addr
selector_matches (address a) c = eq_text (bare_addr a) (bare_addr c.address)
selector_matches (pid p) c = eq_ℤ c.pid p
selector_matches (class s) c = eq_text c.class s
selector_matches (title s) c = eq_text c.title s
selector_matches (tag t) c = any (λ x. eq_text x t) c.tags
selector_matches active c = false

-- What the server uses of the system: Hyprland's socket, what serde reads in its replies,
-- `/proc/<pid>/cmdline`, the decoding of bytes, and what serde writes of the stack.
pub record Host (W R : Type 0) : Type 0 where
  pub send_raw : Send W
  pub read_active : Text → Result (Option Client) Text
  pub read_clients : Text → Result (List Client) Text
  pub proc_cmdline : ℤ → Option (List ℕ)
  pub from_utf8_lossy : List ℕ → Text
  pub to_vec : List UndoEntry → R

-- `State`, as far as these operations use it, with Hyprland and the disk.
pub record State (W R : Type 0) : Type 0 where
  pub hypr : W
  pub undo : UndoStack
  pub disk : Disk R

-- The description of a move.
abbrev pub move_text : Client → WorkspaceRef → Text
move_text c ws =
    codes "move "
    ++ c.class
    ++ codes " from ws "
    ++ show_i32 c.workspace.id
    ++ codes " to ws "
    ++ WorkspaceRef.encode ws

-- The inverse of a move: back to the workspace that the window was on.
abbrev pub inverse_for_moved : Client → Bool → InverseAction
inverse_for_moved c silent =
    move_to_workspace (WindowSelector.address c.address) (WorkspaceRef.id c.workspace.id) silent

-- The answer of an undo whose inverse was carried out.
unfoldable pub answer_undo : Text → Result Unit Error → Response
answer_undo text (ok u) = success (undone text)
answer_undo text (err e) =
    failure (codes "undo_failed") (codes "inverse `" ++ text ++ codes "` failed: " ++ to_string e)

module _ {W R : Type 0} (host : Host W R) (now : ℤ) (wrote : Bool) where
  unfoldable pub inverse_for_killed : Client → Option InverseAction
  inverse_for_killed c = elim (read_proc_cmdline host.from_utf8_lossy (host.proc_cmdline c.pid)) [
    | none ↦ none
    | some cmd ↦ some (spawn cmd)
  ]

  -- `undo.push(description, action)`
  unfoldable pub record_undo : Text → InverseAction → State W R → State W R
  record_undo text action st =
      let r = push host.to_vec wrote now text action (st.undo, st.disk) in
      record st { undo = r.0; disk = r.1 }

  -- After `kill_active`.
  unfoldable pub kill_done :
      Client → Option InverseAction → Result Unit Error → State W R → Response × State W R
  unfolding core_error record_undo
  kill_done c inverse (err e) st = (core_error e, st)
  kill_done c none (ok u) st = (success (killed c.address), st)
  kill_done c (some action) (ok u) st =
      let text = codes "kill " ++ c.class ++ codes " (" ++ c.title ++ codes ")" in
      (success (killed c.address), record_undo text action st)

  -- After the query of the active window.
  unfoldable pub kill_found : Result (Option Client) Error → State W R → Response × State W R
  unfolding core_error inverse_for_killed kill_done
  kill_found (err e) st = (core_error e, st)
  kill_found (ok none) st =
      (failure (codes "hyprland_rejected") (codes "no active window to kill"), st)
  kill_found (ok (some c)) st =
      let r = Connection.kill_active host.send_raw st.hypr in
      kill_done c (inverse_for_killed c) r.0 (record st { hypr = r.1 })

  unfoldable pub kill_active_recorded : State W R → Response × State W R
  unfolding kill_found
  kill_active_recorded st =
      let q = Queries.active_window host.send_raw host.read_active st.hypr in
      kill_found q.0 (record st { hypr = q.1 })

  -- `matched.as_ref().and_then(inverse_for_killed)`
  unfoldable pub inverse_for_matched : Option Client → Option InverseAction
  unfolding inverse_for_killed
  inverse_for_matched none = none
  inverse_for_matched (some c) = inverse_for_killed c

  -- After `close_window`: the operation is recorded only for a window that was found and whose
  -- command line could be read.
  unfoldable pub close_done :
      Option Client → Option InverseAction → Result Unit Error → State W R → Response × State W R
  unfolding core_error record_undo
  close_done matched inverse (err e) st = (core_error e, st)
  close_done none inverse (ok u) st = (success (closed none), st)
  close_done (some c) none (ok u) st = (success (closed (some c.address)), st)
  close_done (some c) (some action) (ok u) st =
      let text = codes "close " ++ c.class ++ codes " (" ++ c.title ++ codes ")" in
      (success (closed (some c.address)), record_undo text action st)

  unfoldable pub close_found :
      WindowSelector → Result (List Client) Error → State W R → Response × State W R
  unfolding core_error selector_matches inverse_for_matched close_done
  close_found sel (err e) st = (core_error e, st)
  close_found sel (ok cs) st =
      let matched = find (selector_matches sel) cs in
      let inverse = inverse_for_matched matched in
      let r = Connection.close_window host.send_raw sel st.hypr in
      close_done matched inverse r.0 (record st { hypr = r.1 })

  unfoldable pub close_window_recorded : WindowSelector → State W R → Response × State W R
  unfolding close_found
  close_window_recorded sel st =
      let q = Queries.clients host.send_raw host.read_clients st.hypr in
      close_found sel q.0 (record st { hypr = q.1 })

  unfoldable pub move_done :
      Client → WorkspaceRef → Bool → Result Unit Error → State W R → Response × State W R
  unfolding core_error record_undo
  move_done c ws silent (err e) st = (core_error e, st)
  move_done c ws silent (ok u) st =
      (success (moved c.address), record_undo (move_text c ws) (inverse_for_moved c silent) st)

  abbrev pub send_move : WorkspaceRef → Bool → Io W Unit
  send_move ws true = Connection.move_active_to_workspace_silent host.send_raw ws
  send_move ws false = Connection.move_active_to_workspace host.send_raw ws

  unfoldable pub move_found :
      WorkspaceRef → Bool → Result (Option Client) Error → State W R → Response × State W R
  unfolding core_error move_done
  move_found ws silent (err e) st = (core_error e, st)
  move_found ws silent (ok none) st =
      (failure (codes "hyprland_rejected") (codes "no active window to move"), st)
  move_found ws silent (ok (some c)) st =
      let r = send_move ws silent st.hypr in move_done c ws silent r.0 (record st { hypr = r.1 })

  unfoldable pub move_to_workspace_recorded : WorkspaceRef → Bool → State W R → Response × State W R
  unfolding move_found
  move_to_workspace_recorded ws silent st =
      let q = Queries.active_window host.send_raw host.read_active st.hypr in
      move_found ws silent q.0 (record st { hypr = q.1 })

  unfoldable pub undo_popped : Option UndoEntry → State W R → Response × State W R
  unfolding answer_undo
  undo_popped none st = (failure (codes "undo_empty") (codes "undo stack is empty"), st)
  undo_popped (some entry) st =
      let r = apply_inverse host.send_raw entry.inverse st.hypr in
      (answer_undo entry.description r.0, record st { hypr = r.1 })

  unfoldable pub undo : State W R → Response × State W R
  unfolding undo_popped
  undo st =
      let r = Undo.pop host.to_vec wrote (st.undo, st.disk) in
      undo_popped r.0 (record st { undo = r.1.0; disk = r.1.1 })

-- `enumerate` and the map to entries of the answer
unfoldable pub list_from : ℕ → List UndoEntry → List UndoListEntry
list_from i [] = []
list_from i (e ∷ es) =
    record { index = i; timestamp_unix = e.timestamp_unix; description = e.description }
    ∷ list_from (suc i) es

unfoldable pub undo_list : {W R : Type 0} → State W R → Response
unfolding list_from
undo_list st = success (undo_entries (list_from 0 (reverse st.undo.entries)))
