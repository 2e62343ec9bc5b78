-- ===== src/Tests/Server.antt =====
-- crates/hyprpilot-daemon/src/server.rs and the snapshot files: the theorems at concrete inputs.
use hypr_pilot.Prelude.{
  ℕ, pos, suc, ◌≡◌, refl, true, false, Option, none, some, is_some, List, [], Text, codes, eq_text,
  eq_text_refl, Result, ok, err, if◌then◌else◌, ap, sym, arith, starts_with,
}
use hypr_pilot.Core.Error.{no_runtime_dir}
use hypr_pilot.Core.Snapshot.{Snapshot, byte_length, len_utf8, is_name_char}
use hypr_pilot.Core.Snapshot.Files.{FileSystem, file_path, save_named, load_named}
use hypr_pilot.Core.Snapshot.Files.Reading.{Stores, load_named-save_named}
use hypr_pilot.Daemon.Protocol as P
use hypr_pilot.Daemon.Undo.{UndoEntry, missing}
use hypr_pilot.Daemon.Services.{Services, State}
use hypr_pilot.Daemon.Server.{input_disabled_response}
use hypr_pilot.Daemon.Server.Requests.{handle_request}
use hypr_pilot.Daemon.Server.Gate.{is_input, handle_request_disabled}
use hypr_pilot.Daemon.Server.Unrecorded.{Same}
use hypr_pilot.Daemon.Server.Stack.{records, handle_request-Same}

-- Files that hold snapshots, by their paths.
abbrev Store : Type 0
Store = Text → Option Snapshot

abbrev found : Option Snapshot → Result Snapshot Text
found none = err (codes "no such file")
found (some s) = ok s

abbrev put : Text → Option Snapshot → Store → Store
put p o w q = if eq_text q p then o else w q

abbrev move_found : Text → Option Snapshot → Store → Result Unit Text × Store
move_found q none w = (err [], w)
move_found q (some s) w = (ok tt, put q (some s) w)

abbrev stored_files : FileSystem Store Snapshot
stored_files = record {
  dir = codes "/s";
  create_dir_all = λ w. (ok tt, w);
  exists = λ p w. is_some (w p);
  read = λ p w. found (w p);
  write = λ p r w. (ok tt, put p (some r) w);
  rename = λ p q w. move_found q (w p) w;
  remove_file = λ p w. (ok tt, put p none w);
  to_vec_pretty = λ s. ok s;
  from_slice = λ r. ok r;
}

put_same : (p : Text) (o : Option Snapshot) (w : Store) → put p o w p ≡ o
put_same p o w = rw (eq_text_refl p)

move_found_reads :
    (o : Option Snapshot) (q : Text) (w : Store)
    → (move_found q o w).0 ≡ ok tt
    → (found ((move_found q o w).1 q) ≡ found o) × (is_some ((move_found q o w).1 q) ≡ true)
move_found_reads none q w h = absurd (ground (arith, h))
move_found_reads (some s) q w h =
    (ap found (put_same q (some s) w), ap is_some (put_same q (some s) w))

stored_files-Stores : Stores stored_files
stored_files-Stores = record {
  read-write = λ p r w h. ap found (put_same p (some r) w);
  read-rename = λ p q w h. move_found_reads (w p) q w h;
  from_slice-to_vec = λ s r h. sym h;
}

abbrev home : Snapshot
home = record {
  name = codes "home";
  created_at_unix = pos 1;
  hyprland_version = codes "0.4";
  monitors = [];
  workspaces = [];
  windows = [];
  active_window_address = none;
  active_workspace_id = pos 1;
}

abbrev empty_store : Store
empty_store p = none

load_named-save_named_example :
    load_named stored_files (codes "home") (save_named stored_files home empty_store).1 ≡ ok home
load_named-save_named_example =
    load_named-save_named stored_files stored_files-Stores home
      (file_path (codes "/s") (codes "home")) empty_store
      (save_named stored_files home empty_store).1
      (unfold save_named eq_text byte_length len_utf8 is_name_char starts_with in refl)

-- A daemon whose queries all fail, and whose world counts the dispatches.
abbrev pub services : Services ℕ (List UndoEntry)
services = record {
  host = record {
    send_raw = λ text w. (ok (codes "ok"), suc w);
    read_active = λ raw. ok none;
    read_clients = λ raw. ok [];
    proc_cmdline = λ pid. none;
    from_utf8_lossy = λ s. s;
    to_vec = λ es. es;
  };
  queried = record {
    version = λ w. (err no_runtime_dir, w);
    clients = λ w. (ok [], w);
    workspaces = λ w. (ok [], w);
    monitors = λ w. (ok [], w);
    active_window = λ w. (ok none, w);
    active_workspace = λ w. (err no_runtime_dir, w);
  };
  files = record {
    dir = codes "/s";
    create_dir_all = λ w. (ok tt, w);
    exists = λ p w. false;
    read = λ p w. err [];
    write = λ p r w. (ok tt, w);
    rename = λ p q w. (ok tt, w);
    remove_file = λ p w. (ok tt, w);
    to_vec_pretty = λ s. err [];
    from_slice = λ r. err [];
  };
  list_names = λ w. ok [];
  cached_clients = λ w. (ok [], w);
  cached_workspaces = λ w. (ok [], w);
  cached_monitors = λ w. (ok [], w);
  cached_active_window = λ w. (ok none, w);
  cached_active_workspace = λ w. (err no_runtime_dir, w);
  cached_version = λ w. (err no_runtime_dir, w);
  cached_binds = λ w. (ok [], w);
  cursor_position = λ w. (err no_runtime_dir, w);
  load_default = λ w. ok none;
  rules_path = codes "rules.toml";
  type_text = λ t w. (ok tt, suc w);
  press_keys = λ c w. (ok tt, suc w);
  mouse_move = λ x y a w. (ok tt, suc w);
  mouse_click = λ b w. (ok tt, suc w);
  scaled = λ n s. n;
  divided = λ n s. n;
  connect_a11y = λ w. (ok tt, w);
  snapshot_app = λ p n w. (ok [], w);
  find_elements = λ p q r n w. (ok [], w);
  utf8_length = λ t. 0;
  now = pos 1;
  show_now = codes "1";
  wrote = true;
}

abbrev pub idle : State ℕ (List UndoEntry)
idle = record {
  recorded = record {
    hypr = 0;
    undo = record { entries = []; capacity = 2; persist_path = none };
    disk = λ path. missing;
  };
  input_enabled = false;
  a11y = false;
  stopping = false;
}

handle_request_disabled_example :
    handle_request services (P.input_type (codes "rm")) idle ≡ (input_disabled_response, idle)
handle_request_disabled_example =
    handle_request_disabled services (P.input_type (codes "rm")) idle (unfold is_input in refl) refl

handle_request-Same_example :
    Same services (handle_request services (P.dispatch_exec (codes "kitty")) idle).1 idle
handle_request-Same_example =
    handle_request-Same services (P.dispatch_exec (codes "kitty")) idle (unfold records in refl)
