-- ===== src/Daemon/Services.antt =====
-- What the daemon's handlers use: the reads of the world cache (crates/hyprpilot-daemon/src/cache.rs),
-- the input runner, the accessibility bus, the file system, the rules file and the clock; and
-- `State` of crates/hyprpilot-daemon/src/server.rs.
use hypr_pilot.Prelude.{ℕ, ℤ, Bool, Option, List, Text, Result}
use hypr_pilot.A11y.{Element, A11yError}
use hypr_pilot.Core.Types.{Bind, Version, Client, Workspace, ActiveWorkspace, Monitor}
use hypr_pilot.Core.Connection.{Io}
use hypr_pilot.Core.Snapshot.Capture.{Queried}
use hypr_pilot.Core.Snapshot.Files.{FileSystem}
use hypr_pilot.Daemon.Recorded as Recorded
use hypr_pilot.Daemon.Rules.{RuleConfig}
use hypr_pilot.Input.Error.{InputError}
use hypr_pilot.Input.Keys.{KeyCombo}
use hypr_pilot.Input.Buttons.{MouseButton}

-- `W` is the state of all of these. `scaled n s` is `(n as f64 * s).round() as i32`, and `divided`
-- likewise; `list_names` has its `io::Error` as a text, and `load_default` its error.
pub record Services (W R : Type 0) : Type 0 where
  pub host : Recorded.Host W R
  pub queried : Queried W
  pub files : FileSystem W R
  pub list_names : W → Result (List Text) Text
  pub cached_clients : Io W (List Client)
  pub cached_workspaces : Io W (List Workspace)
  pub cached_monitors : Io W (List Monitor)
  pub cached_active_window : Io W (Option Client)
  pub cached_active_workspace : Io W ActiveWorkspace
  pub cached_version : Io W Version
  pub cached_binds : Io W (List Bind)
  pub cursor_position : Io W (ℤ × ℤ)
  pub load_default : W → Result (Option RuleConfig) Text
  pub rules_path : Text
  pub type_text : Text → W → Result Unit InputError × W
  pub press_keys : KeyCombo → W → Result Unit InputError × W
  pub mouse_move : (x y : ℤ) → Bool → W → Result Unit InputError × W
  pub mouse_click : MouseButton → W → Result Unit InputError × W
  pub scaled : ℤ → ℕ → ℤ
  pub divided : ℤ → ℕ → ℤ
  pub connect_a11y : W → Result Unit A11yError × W
  pub snapshot_app : ℤ → ℕ → W → Result (List Element) A11yError × W
  pub find_elements : ℤ → Text → Option Text → ℕ → W → Result (List Element) A11yError × W
  pub utf8_length : Text → ℕ
  pub now : ℤ
  pub show_now : Text
  pub wrote : Bool

-- `recorded` has the undo stack, its file and the world; `stopping` is the shutdown notification, and
-- `a11y` whether there is a connection to the accessibility bus.
pub record State (W R : Type 0) : Type 0 where
  pub recorded : Recorded.State W R
  pub input_enabled : Bool
  pub a11y : Bool
  pub stopping : Bool
