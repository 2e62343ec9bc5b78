-- ===== src/Daemon/Replies.antt =====
-- crates/hyprpilot-daemon/src/protocol.rs: the daemon's answers. A result is kept as what it is made
-- of, before serde turns it into JSON.
use hypr_pilot.Prelude.{ℕ, ℤ, Bool, Option, List, Text}
use hypr_pilot.A11y.{Element}
use hypr_pilot.Core.Types.{Bind, Version, Client, Workspace, ActiveWorkspace, Monitor}
use hypr_pilot.Core.Snapshot.{RestoreAction}
use hypr_pilot.Core.Snapshot.Apply.{ApplyOutcome}
use hypr_pilot.Core.Snapshot.Preview.{SnapshotRestorePreview}
use hypr_pilot.Daemon.Rules.{Rule}
use hypr_pilot.Input.Buttons.{MouseButton}

pub record UndoListEntry : Type 0 where
  pub index : ℕ
  pub timestamp_unix : ℤ
  pub description : Text

-- What a successful answer holds, by the handler that gives it.
pub data Reply : Type 0 where
  pong shutting_down null : Reply
  clients : List Client → Reply
  workspaces : List Workspace → Reply
  monitors : List Monitor → Reply
  active_window : Option Client → Reply
  active_workspace : ActiveWorkspace → Reply
  version : Version → Reply
  cursor_pos : ℤ × ℤ → Reply
  binds : List Bind → Reply
  killed : (address : Text) → Reply
  closed : (address : Option Text) → Reply
  moved : (address : Text) → Reply
  undone : (description : Text) → Reply
  undo_entries : List UndoListEntry → Reply
  saved : (name path : Text) (windows workspaces monitors : ℕ) → Reply
  names : List Text → Reply
  diff : List RestoreAction → Reply
  restore_preview : SnapshotRestorePreview → Reply
  restored :
      (name pre_restore_snapshot : Text) (mutations_attempted : ℕ) (outcomes : List ApplyOutcome)
      (restore_preview : SnapshotRestorePreview)
      → Reply
  deleted : (name : Text) → Reply
  rules : (path : Text) (count : ℕ) (rules : List Rule) → Reply
  rules_ok : (path : Text) (rules : ℕ) (note : Option Text) → Reply
  rules_path : (path : Text) → Reply
  typed : (typed_bytes : ℕ) → Reply
  pressed : (combo : Text) → Reply
  sent : (combo target : Text) → Reply
  moved_to : (x y : ℤ) (absolute : Bool) → Reply
  clicked : MouseButton → Reply
  elements : (pid : ℤ) (query : Option Text) (elements : List Element) → Reply
  bind_preview : (combo dispatcher arg would_dispatch : Text) → Reply
  bind_ran : (combo dispatched : Text) → Reply

pub data Response : Type 0 where
  success : Reply → Response
  failure : (code message : Text) → Response
