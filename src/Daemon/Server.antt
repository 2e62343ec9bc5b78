-- ===== src/Daemon/Server.antt =====
-- crates/hyprpilot-daemon/src/server.rs: the handlers of the requests that record nothing.
pub mod Access
pub mod Snapshots
pub mod Requests
pub mod Gate
pub mod Unrecorded
pub mod Stack
use hypr_pilot.Prelude.{
  ℕ, ℤ, Bool, true, false, not, ◌&&◌, Option, none, some, List, [], ◌∷◌, ◌++◌, find, length,
  get_elem?, Text, codes, Result, ok, err, if◌then◌else◌, lt_ℤ, leb, ltb, add_i32, or_option,
}
use hypr_pilot.A11y.{Element, A11yError, unavailable, bus, no_application, show_a11y_error}
use hypr_pilot.Core.Error.{Error}
use hypr_pilot.Core.WindowSelector
use hypr_pilot.Core.WindowSelector.{WindowSelector}
use hypr_pilot.Core.Types.{Client, Monitor, Bind}
use hypr_pilot.Core.Connection
use hypr_pilot.Core.Connection.{Io}
use hypr_pilot.Input.Error.{
  InputError, backend_missing, daemon_not_reachable, invalid_combo, invalid_button, backend_failed,
  not_implemented, invalid_backend_selection, virtual_pointer,
}
use hypr_pilot.Input.Error as InputError
use hypr_pilot.Input.Keys as Keys
use hypr_pilot.Input.Keys.{KeyCombo, encode_hyprctl_mods}
use hypr_pilot.Input.Buttons.{MouseButton}
use hypr_pilot.Daemon.Binds.{resolve, bind_action}
use hypr_pilot.Daemon.Replies as Replies
use hypr_pilot.Daemon.Replies.{
  Reply, Response, success, failure, typed, pressed, sent, moved_to, clicked, elements,
  bind_preview, bind_ran,
}
use hypr_pilot.Daemon.Recorded.{core_error}
use hypr_pilot.Daemon.Services.{Services, State}

-- `from_core`, and with `null` `void_from_core`
unfoldable pub from_core : {A : Type 0} → (A → Reply) → Result A Error → Response
unfolding core_error
from_core reply (ok a) = success (reply a)
from_core reply (err e) = core_error e

abbrev pub input_disabled_response : Response
input_disabled_response = failure (codes "input_disabled") (
    codes
      "input synthesis is disabled in this daemon. Restart the daemon with HYPRPILOT_DANGEROUS_INPUT_OK=1 to enable.")

abbrev pub input_error_code : InputError → Text
input_error_code (backend_missing b) = codes "input_backend_missing"
input_error_code (daemon_not_reachable d) = codes "input_daemon_missing"
input_error_code (invalid_combo m) = codes "input_invalid"
input_error_code (invalid_button b) = codes "input_invalid"
input_error_code (backend_failed b s e) = codes "input_failed"
input_error_code (not_implemented b op) = codes "input_backend_missing"
input_error_code (invalid_backend_selection n) = codes "input_backend_missing"
input_error_code (InputError.io e) = codes "input_failed"
input_error_code (virtual_pointer e) = codes "input_failed"

unfoldable pub from_input : Reply → Result Unit InputError → Response
from_input reply (ok u) = success reply
from_input reply (err e) = failure (input_error_code e) (InputError.to_string e)

-- The monitor at a point, or the focused one, or the first one.
unfoldable pub contains_point : (ℤ → ℕ → ℤ) → ℤ → ℤ → Monitor → Bool
contains_point divided x y m =
    let lw = divided m.width m.scale in
    let lh = divided m.height m.scale in
    not (lt_ℤ x m.x) && (lt_ℤ x (add_i32 m.x lw) && (not (lt_ℤ y m.y) && lt_ℤ y (add_i32 m.y lh)))

unfoldable pub monitor_at : (ℤ → ℕ → ℤ) → List Monitor → ℤ → ℤ → Option Monitor
unfolding contains_point
monitor_at divided monitors x y =
    or_option (find (contains_point divided x y) monitors)
      (or_option (find (λ (m : Monitor). m.focused) monitors) (get_elem? monitors 0))

-- `1.0` is given as its bits.
unfoldable pub scale_at : (ℤ → ℕ → ℤ) → List Monitor → ℤ → ℤ → ℕ
unfolding monitor_at
scale_at divided monitors x y = elim (monitor_at divided monitors x y) [
  | none ↦ 0x3ff0000000000000
  | some m ↦ m.scale
]

abbrev pub scope_text : Option Text → Text
scope_text none = []
scope_text (some s) = codes " in submap `" ++ s ++ codes "`"

module _ {W R : Type 0} (svc : Services W R) where
  -- A handler: the answer, and the state after it.
  abbrev pub Handler : Type 0
  Handler = State W R → Response × State W R

  abbrev pub world : State W R → W
  world st = st.recorded.hypr

  abbrev pub moved_on : W → State W R → State W R
  moved_on w st = record st { recorded = record st.recorded { hypr = w } }

  -- A step outside, and the answer that its result gives.
  abbrev pub outside : {A : Type 0} → (W → A × W) → (A → Response) → Handler
  outside f answer st = let r = f (world st) in (answer r.0, moved_on r.1 st)

  abbrev pub core : {A : Type 0} → (A → Reply) → Io W A → Handler
  core reply f = outside f (from_core reply)

  abbrev pub void : Io W Unit → Handler
  void f = core (λ u. Replies.null) f

  -- `if !state.input_enabled { return input_disabled_response() }`
  abbrev pub gated : Handler → Handler
  gated h st = if st.input_enabled then h st else (input_disabled_response, st)

  unfoldable pub input_type : Text → Handler
  unfolding from_input
  input_type text = gated (outside (svc.type_text text) (from_input (typed (svc.utf8_length text))))

  unfoldable pub input_keys : KeyCombo → Handler
  unfolding from_input
  input_keys combo = gated (outside (svc.press_keys combo) (from_input (pressed (Keys.show combo))))

  unfoldable pub input_shortcut : KeyCombo → WindowSelector → Handler
  unfolding from_core
  input_shortcut combo selector =
      let target = WindowSelector.encode selector in
      let payload =
        codes "sendshortcut "
        ++ encode_hyprctl_mods combo
        ++ codes ","
        ++ combo.key
        ++ codes ","
        ++ target in
      gated
        (core (λ u. sent (Keys.show combo) target) (Connection.dispatch svc.host.send_raw payload))

  -- The point of the device, of the monitors that the cache gave.
  unfoldable pub to_device : ℤ → ℤ → Result (List Monitor) Error → ℤ × ℤ
  unfolding scale_at
  to_device x y (err e) = (svc.scaled x 0x3ff0000000000000, svc.scaled y 0x3ff0000000000000)
  to_device x y (ok monitors) =
      let scale = scale_at svc.divided monitors x y in (svc.scaled x scale, svc.scaled y scale)

  unfoldable pub logical_to_device : ℤ → ℤ → W → (ℤ × ℤ) × W
  unfolding to_device
  logical_to_device x y w = let r = svc.cached_monitors w in (to_device x y r.0, r.1)

  unfoldable pub input_mouse_move : ℤ → ℤ → Bool → Handler
  unfolding logical_to_device from_input
  input_mouse_move x y absolute st =
      gated
        (λ st.
          let device = logical_to_device x y (world st) in
          let p = if absolute then device else ((x, y), world st) in
          outside (svc.mouse_move p.0.0 p.0.1 absolute) (from_input (moved_to x y absolute))
            (moved_on p.1 st))
        st

  unfoldable pub input_mouse_click : MouseButton → Handler
  unfolding from_input
  input_mouse_click button = gated (outside (svc.mouse_click button) (from_input (clicked button)))

  -- The end of `run_bind`, for the bind that was found.
  unfoldable pub run_found : KeyCombo → Option Text → Bool → Option Bind → Handler
  unfolding from_core
  run_found combo submap dry_run none st = (
    failure (codes "bind_not_found")
        (codes "no keybind matches `" ++ Keys.show combo ++ codes "`" ++ scope_text submap),
    st,
  )
  run_found combo submap true (some bind) st =
      (success (bind_preview (Keys.show combo) bind.dispatcher bind.arg (bind_action bind)), st)
  run_found combo submap false (some bind) st =
      core (λ u. bind_ran (Keys.show combo) (bind_action bind))
        (Connection.dispatch svc.host.send_raw (bind_action bind)) st

  unfoldable pub run_bind_with : KeyCombo → Option Text → Bool → Result (List Bind) Error → Handler
  unfolding run_found core_error
  run_bind_with combo submap dry_run (err e) st = (core_error e, st)
  run_bind_with combo submap dry_run (ok binds) st =
      run_found combo submap dry_run (resolve binds combo submap) st

  unfoldable pub run_bind : KeyCombo → Option Text → Bool → Handler
  unfolding run_bind_with
  run_bind combo submap dry_run st =
      let r = svc.cached_binds (world st) in
      run_bind_with combo submap dry_run r.0 (moved_on r.1 st)
