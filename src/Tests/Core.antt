-- ===== src/Tests/Core.antt =====
-- crates/hyprpilot-core: the theorems at concrete inputs.
use hypr_pilot.Prelude.{
  ◌≡◌, refl, ◌↔◌, true, false, none, some, List, [], ◌∷◌, ◌++◌, map, filter, not, Text, codes,
  starts_with, ok, err, Result, pos, negsuc, arith, Distinct, distinct_nil, distinct_cons, eq_text,
  any, trim_end, strip_prefix, ℕ, suc, Bool, if◌then◌else◌, All, Lacks-of_all, ◌==◌,
}
use hypr_pilot.Prelude.Maps.{get, insert}
use hypr_pilot.Core.Error.{Error}
use hypr_pilot.Core.Connection.{Send}
use hypr_pilot.Core.WindowSelector
use hypr_pilot.Core.WorkspaceRef
use hypr_pilot.Core.WindowSelector.RoundTrip.{canonical, parse-encode}
use hypr_pilot.Core.WorkspaceRef.RoundTrip.{parse-encode_workspace, parse-encode_negative}
use hypr_pilot.Core.Events.{is_newline, next, extract_fields, normalize_addr}
use hypr_pilot.Core.Events.Payloads.{line_of, next-line_of}
use hypr_pilot.Core.Snapshot.{
  WindowSnapshot, Snapshot, RestoreAction, window_missing, set_pin, move_to_workspace,
  toggle_floating, is_no_op, validate_name,
}
use hypr_pilot.Core.Snapshot.Diff.{contains, diff_windows, diff_against}
use hypr_pilot.Core.Snapshot.Commands.{State}
use hypr_pilot.Core.Snapshot.SelfDiff.{diff_against_self}
use hypr_pilot.Core.Snapshot.Claims.{Assigns, diff_windows-Distinct}
use hypr_pilot.Core.Snapshot.Preview.{from_snapshot_and_diff}
use hypr_pilot.Core.Snapshot.Preview.Counts.{Agrees, from_snapshot_and_diff-Agrees}
use hypr_pilot.Core.Snapshot.Names.{IsName, validate_name-ok_iff}

parse-encode_example :
    WindowSelector.parse (WindowSelector.encode (WindowSelector.address (codes "55aa")))
    ≡ ok (canonical (WindowSelector.address (codes "55aa")))
parse-encode_example = parse-encode (WindowSelector.address (codes "55aa")) tt

parse-encode_workspace_example :
    WorkspaceRef.parse (WorkspaceRef.encode (WorkspaceRef.relative (negsuc 1)))
    ≡ ok (WorkspaceRef.relative (negsuc 1))
parse-encode_workspace_example =
    parse-encode_workspace (WorkspaceRef.relative (negsuc 1)) (omega arith)

parse-encode_negative_example :
    WorkspaceRef.parse (WorkspaceRef.encode (WorkspaceRef.id (negsuc 98)))
    ≡ ok (WorkspaceRef.relative (negsuc 98))
parse-encode_negative_example = parse-encode_negative 98 (omega arith)

next-line_of_example :
    next (line_of (codes "workspace") (codes "2"))
    ≡ some (record { name = codes "workspace"; data_text = codes "2" })
next-line_of_example =
    next-line_of (codes "workspace") (codes "2")
      (Lacks-of_all (λ d. b'>' == d) (codes "workspace") refl) (unfold trim_end in refl)

closed :
    get (extract_fields (codes "closewindow") (codes "55aa")) (codes "address")
    ≡ some (codes "0x55aa")
unfolding get extract_fields eq_text hypr_pilot.Core.Events.address_fields hypr_pilot.Prelude.split
    insert normalize_addr starts_with
closed = refl

-- Two windows, one of them as it was and one moved, floated and pinned.
abbrev window : Text → Bool → WindowSnapshot
window address floating = record {
  address = address;
  pid = pos 7;
  initial_class = codes "kitty";
  initial_title = codes "sh";
  class = codes "kitty";
  title = codes "sh";
  workspace_id = if floating then pos 2 else pos 1;
  monitor_name = codes "DP-1";
  at = (pos 0, pos 0);
  size = (pos 10, pos 20);
  floating = floating;
  fullscreen = pos 0;
  pinned = floating;
}

abbrev snapshot : Snapshot
snapshot = record {
  name = codes "work";
  created_at_unix = pos 5;
  hyprland_version = codes "0.40";
  monitors = [];
  workspaces = [];
  windows = window (codes "0x1") false ∷ window (codes "0x2") true ∷ [];
  active_window_address = some (codes "0x1");
  active_workspace_id = pos 1;
}

-- A tiled window that is elsewhere.
abbrev live_window : WindowSnapshot
live_window = record (window (codes "0x2") false) { at = (pos 5, pos 6) }

abbrev taken : State → Result Text Error × State
taken s = (ok (codes "ok"), s)

-- A Hyprland that knows the commands for this window.
abbrev one_window : Send State
one_window text s =
    if eq_text text (codes "dispatch movetoworkspacesilent 2,address:0x2")
    then taken (record s { workspace = pos 2 })
    else if eq_text text (codes "dispatch togglefloating address:0x2")
    then taken (record s { floating = not s.floating })
    else if eq_text text (codes "dispatch movewindowpixel exact 0 0,address:0x2")
    then taken (record s { at = (pos 0, pos 0) })
    else if eq_text text (codes "dispatch resizewindowpixel exact 10 20,address:0x2")
    then taken (record s { size = (pos 10, pos 20) })
    else if eq_text text (codes "dispatch fullscreenstate 0 -1,address:0x2")
    then taken (record s { fullscreen = pos 0 })
    else if eq_text text (codes "dispatch pin address:0x2")
    then taken (record s { pinned = not s.pinned })
    else (ok (codes "Invalid dispatcher"), s)

two_texts : Distinct (codes "0x1" ∷ codes "0x2" ∷ [])
unfolding eq_text
two_texts =
    distinct_cons (codes "0x1") (codes "0x2" ∷ []) refl
      (distinct_cons (codes "0x2") [] refl distinct_nil)

diff_against-self_example : diff_against snapshot snapshot ≡ []
diff_against-self_example = diff_against_self snapshot two_texts

diff_windows-Distinct_example :
    (claims : List Text) × Assigns snapshot.windows snapshot.windows claims
      (diff_windows snapshot.windows snapshot.windows []).0
    × Distinct claims
    × ((a : Text)
        → contains (diff_windows snapshot.windows snapshot.windows []).1 a ≡ contains claims a)
diff_windows-Distinct_example = diff_windows-Distinct snapshot.windows snapshot.windows

-- A Hyprland that accepts every command and counts them.
abbrev accepts : Send ℕ
accepts text w = (ok (codes "ok"), suc w)

abbrev diff : List RestoreAction
diff = window_missing (codes "0x3") (codes "a") (codes "b") ∷ set_pin (codes "0x1") true ∷ []

abbrev notes_only : List RestoreAction
notes_only = window_missing (codes "0x3") (codes "a") (codes "b") ∷ []

no_mutation : is_no_op notes_only ≡ true
unfolding is_no_op hypr_pilot.Core.Snapshot.mutation_count hypr_pilot.Core.Snapshot.is_mutating
no_mutation = refl

from_snapshot_and_diff-Agrees_example : Agrees diff (from_snapshot_and_diff snapshot diff)
from_snapshot_and_diff-Agrees_example = from_snapshot_and_diff-Agrees snapshot diff

validate_name-ok_iff_example : (validate_name (codes "../etc") ≡ ok tt) ↔ IsName (codes "../etc")
validate_name-ok_iff_example = validate_name-ok_iff (codes "../etc")

-- A closed window of a process that has another one claims the other one by its process id before
-- the other one's own entry is looked at.
stolen_match :
    (diff_windows
      (window (codes "0x9") false ∷ window (codes "0x2") true ∷ [])
      (window (codes "0x2") true ∷ [])
      []).0
    ≡ move_to_workspace (codes "0x2") (pos 2) (pos 1)
      ∷ toggle_floating (codes "0x2") false
      ∷ window_missing (codes "0x2") (codes "kitty") (codes "sh")
      ∷ []
unfolding diff_windows eq_text
stolen_match = refl
