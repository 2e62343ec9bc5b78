-- ===== src/Daemon/Undo.antt =====
-- crates/hyprpilot-daemon/src/undo.rs, less `default_persist_path` and `now_unix`: the undo stack.
-- A `VecDeque` is a list with the oldest entry first. The file system and `serde_json` are
-- parameters: an operation is given the disk before it and whether its write of the file, by a
-- temporary file and a rename, succeeds; the temporary file itself is not modelled. The path is a
-- text, and the time of an entry is an argument.
pub mod History
pub mod Ops
pub mod Restart
use hypr_pilot.Prelude.{
  ℕ, ℤ, Bool, true, false, Option, none, some, List, [], ◌∷◌, ◌++◌, length, ltb, ◌==◌,
  if◌then◌else◌, Text, eq_text, Result, ok, err, ◌>>=◌, ◌>>◌, is_some,
}
use hypr_pilot.Core.WindowSelector.{WindowSelector}
use hypr_pilot.Core.WorkspaceRef.{WorkspaceRef}
use hypr_pilot.Core.Connection
use hypr_pilot.Core.Connection.{Io, Send}

pub data InverseAction : Type 0 where
  spawn : (command : Text) → InverseAction
  move_to_workspace :
      (selector : WindowSelector) (workspace : WorkspaceRef) (silent : Bool) → InverseAction

pub record UndoEntry : Type 0 where
  pub timestamp_unix : ℤ
  pub description : Text
  pub inverse : InverseAction

pub record UndoStack : Type 0 where
  pub entries : List UndoEntry
  pub capacity : ℕ
  pub persist_path : Option Text

-- What a path holds: nothing, something that cannot be read, or a file's bytes. The bytes that `serde_json` writes are a type `R`.
pub data File (R : Type 0) : Type 0 where
  missing : File R
  unreadable : (error : Text) → File R
  holds : (raw : R) → File R

abbrev pub Disk : Type 0 → Type 0
Disk R = Text → File R

abbrev pub write_file : {R : Type 0} → Text → R → Disk R → Disk R
write_file path buf disk q = if eq_text path q then holds buf else disk q

pub data LoadOutcome : Type 0 where
  loaded : ℕ → LoadOutcome
  empty : LoadOutcome
  corrupt : (error : Text) → LoadOutcome

unfoldable pub with_capacity : ℕ → UndoStack
with_capacity cap = record { entries = []; capacity = cap; persist_path = none }

-- `pop_front`, whose result the code does not use
abbrev pub pop_front {ℓ} : {A : Type ℓ} → List A → List A
pop_front [] = []
pop_front (x ∷ xs) = xs

-- `pop_back`: the last element and the others
unfoldable pub pop_back : List UndoEntry → Option (UndoEntry × List UndoEntry)
pop_back [] = none
pop_back (x ∷ xs) = elim (pop_back xs) [
  | none ↦ some (x, [])
  | some (last, rest) ↦ some (last, x ∷ rest)
]

-- `while self.entries.len() > self.capacity { self.entries.pop_front(); }`
unfoldable pub drop_oldest : ℕ → List UndoEntry → List UndoEntry
drop_oldest cap [] = []
drop_oldest cap (x ∷ xs) =
    let rest = drop_oldest cap xs in if ltb cap (length (x ∷ xs)) then rest else x ∷ xs

-- `serde_json::from_slice` is a parameter.
module _ {R : Type 0} (from_slice : R → Result (List UndoEntry) Text) where
  -- `read` of a path that exists
  unfoldable pub read : File R → Result (List UndoEntry) Text
  read missing = ok []
  read (unreadable e) = err e
  read (holds raw) = from_slice raw

  unfoldable pub load : File R → UndoStack → UndoStack × LoadOutcome
  unfolding read drop_oldest
  load missing s = (s, empty)
  load file s = elim (read file) [
    | err e ↦ (s, corrupt e)
    | ok es ↦
        let kept = drop_oldest s.capacity es in
        (
          record { entries = kept; capacity = s.capacity; persist_path = s.persist_path },
          loaded (length kept),
        )
  ]

  unfoldable pub enable_persistence : Text → Disk R → UndoStack → UndoStack × LoadOutcome
  unfolding load
  enable_persistence path disk s =
      let r = load (disk path) s in
      (record { entries = r.0.entries; capacity = r.0.capacity; persist_path = some path }, r.1)

-- `serde_json::to_vec_pretty` is a parameter.
module _ {R : Type 0} (to_vec : List UndoEntry → R) where
  -- `wrote` is whether the write succeeds; a failure is logged and dropped.
  unfoldable pub persist : Bool → UndoStack → Disk R → Disk R
  persist wrote s disk = elim s.persist_path [
    | none ↦ disk
    | some path ↦ if wrote then write_file path (to_vec s.entries) disk else disk
  ]

  unfoldable pub push :
      Bool → (now : ℤ) → Text → InverseAction → UndoStack × Disk R → UndoStack × Disk R
  unfolding persist
  push wrote now text inv (s, disk) =
      let entry : UndoEntry = record { timestamp_unix = now; description = text; inverse = inv } in
      let kept = if length s.entries == s.capacity then pop_front s.entries else s.entries in
      let s' : UndoStack = record {
        entries = kept ++ (entry ∷ []);
        capacity = s.capacity;
        persist_path = s.persist_path;
      } in
      (s', persist wrote s' disk)

  unfoldable pub pop : Bool → UndoStack × Disk R → Option UndoEntry × (UndoStack × Disk R)
  unfolding persist pop_back
  pop wrote (s, disk) = elim (pop_back s.entries) [
    | none ↦ (none, (s, disk))
    | some (last, rest) ↦
        let s' : UndoStack = record {
          entries = rest;
          capacity = s.capacity;
          persist_path = s.persist_path;
        } in
        (some last, (s', persist wrote s' disk))
  ]

module _ {W : Type 0} (send_raw : Send W) where
  -- The second command is sent only when the first is accepted.
  abbrev pub then_io : Io W Unit → Io W Unit → Io W Unit
  then_io first second w = let r = first w in elim r.0 [ err e ↦ (err e, r.1) | ok u ↦ second r.1 ]

  unfoldable pub apply_inverse : InverseAction → Io W Unit
  apply_inverse (spawn cmd) = Connection.exec send_raw cmd
  apply_inverse (move_to_workspace sel ws silent) = then_io (Connection.focus_window send_raw sel) (
      if silent
      then Connection.move_active_to_workspace_silent send_raw ws
      else Connection.move_active_to_workspace send_raw ws)
