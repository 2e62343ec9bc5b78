-- ===== src/Core/Snapshot.antt =====
-- crates/hyprpilot-core/src/snapshot.rs: the data shapes and the names of snapshots.
pub mod Diff
pub mod SelfDiff
pub mod Claims
pub mod Commands
pub mod Matching
pub mod Replay
pub mod Apply
pub mod Preview
pub mod Names
pub mod Capture
pub mod Files
use hypr_pilot.Prelude.{
  ℕ, ℤ, Bool, true, false, Option, List, [], ◌∷◌, ◌++◌, ◌+◌, length, filter, all, ltb, leb, ◌==◌,
  ◌&&◌, ◌||◌, not, if◌then◌else◌, Text, codes, is_empty, starts_with, Result, ok, err,
}
use hypr_pilot.Core.Error.{Error, validation}

pub record WindowSnapshot : Type 0 where
  pub address : Text
  pub pid : ℤ
  pub initial_class : Text
  pub initial_title : Text
  pub class : Text
  pub title : Text
  pub workspace_id : ℤ
  pub monitor_name : Text
  pub at : ℤ × ℤ
  pub size : ℤ × ℤ
  pub floating : Bool
  -- 0 = none, 1 = maximize, 2 = fullscreen
  pub fullscreen : ℤ
  pub pinned : Bool

pub record WorkspaceSnapshot : Type 0 where
  pub id : ℤ
  pub name : Text
  pub monitor : Text
  pub windows : ℕ

pub record MonitorSnapshot : Type 0 where
  pub name : Text
  pub active_workspace_id : ℤ

pub record Snapshot : Type 0 where
  pub name : Text
  pub created_at_unix : ℤ
  pub hyprland_version : Text
  pub monitors : List MonitorSnapshot
  pub workspaces : List WorkspaceSnapshot
  pub windows : List WindowSnapshot
  pub active_window_address : Option Text
  pub active_workspace_id : ℤ

pub data RestoreAction : Type 0 where
  window_missing : (address class title : Text) → RestoreAction
  move_to_workspace : (address : Text) (from_workspace to_workspace : ℤ) → RestoreAction
  toggle_floating : (address : Text) (target : Bool) → RestoreAction
  reposition_floating :
      (address : Text) (target_at target_size current_at current_size : ℤ × ℤ) → RestoreAction
  set_fullscreen : (address : Text) (from_mode to_mode : ℤ) → RestoreAction
  set_pin : (address : Text) (target : Bool) → RestoreAction
  window_not_in_snapshot : (address class : Text) → RestoreAction
  restore_active_focus : (address : Text) (from_address : Option Text) → RestoreAction

unfoldable pub is_mutating : RestoreAction → Bool
is_mutating (window_missing address class title) = false
is_mutating (window_not_in_snapshot address class) = false
is_mutating _ = true

unfoldable pub mutation_count : List RestoreAction → ℕ
mutation_count actions = length (filter is_mutating actions)

unfoldable pub is_no_op : List RestoreAction → Bool
is_no_op actions = mutation_count actions == 0

-- `c.is_ascii_alphanumeric() || c == '_' || c == '-' || c == '.'`
unfoldable pub is_name_char : ℕ → Bool
is_name_char c =
    (leb b'a' c && leb c b'z')
    || (leb b'A' c && leb c b'Z')
    || (leb b'0' c && leb c b'9')
    || (c == b'_')
    || (c == b'-')
    || (c == b'.')

-- `char::len_utf8`, and `str::len` in bytes
unfoldable pub len_utf8 : ℕ → ℕ
len_utf8 c = if ltb c 128 then 1 else if ltb c 2048 then 2 else if ltb c 65536 then 3 else 4

unfoldable pub byte_length : Text → ℕ
byte_length [] = 0
byte_length (c ∷ s) = len_utf8 c + byte_length s

unfoldable pub validate_name : Text → Result Unit Error
validate_name name =
    if is_empty name
    then err (validation (codes "snapshot name must not be empty"))
    else if ltb 128 (byte_length name)
    then err (validation (codes "snapshot name too long (max 128 chars)"))
    else if not (all is_name_char name) || starts_with (codes ".") name
    then err (
        validation (
          codes "snapshot name `"
          ++ name
          ++ codes
              "` contains illegal characters; allowed: [A-Za-z0-9_.-], must not start with `.`"))
    else ok tt
