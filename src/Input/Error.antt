-- ===== src/Input/Error.antt =====
-- crates/hyprpilot-input/src/error.rs: what can go wrong with key and pointer input.
use hypr_pilot.Prelude.{◌++◌, Text, codes}

pub data InputError : Type 0 where
  backend_missing : (name : Text) → InputError
  daemon_not_reachable : (name : Text) → InputError
  invalid_combo : (message : Text) → InputError
  invalid_button : (name : Text) → InputError
  backend_failed : (backend status stderr : Text) → InputError
  not_implemented : (backend op : Text) → InputError
  invalid_backend_selection : (name : Text) → InputError
  io : (message : Text) → InputError
  virtual_pointer : (message : Text) → InputError

-- The `Display` that thiserror derives.
unfoldable pub to_string : InputError → Text
to_string (backend_missing b) =
    codes "input backend `" ++ b ++ codes "` is not installed (or not on PATH)"
to_string (daemon_not_reachable d) =
    codes "input daemon `"
    ++ d
    ++ codes
        "` is not reachable: socket missing. Start ydotoold (e.g. `systemctl --user start ydotoold` or `sudo ydotoold &`); set $YDOTOOL_SOCKET if your socket lives at a non-default path (default `/tmp/.ydotool_socket`)."
to_string (invalid_combo m) = codes "invalid key combo: " ++ m
to_string (invalid_button b) =
    codes "invalid mouse button `" ++ b ++ codes "`; expected left/right/middle/x1/x2"
to_string (backend_failed b s e) =
    codes "input backend `" ++ b ++ codes "` exited with status " ++ s ++ codes ": " ++ e
to_string (not_implemented b op) =
    codes "input backend `" ++ b ++ codes "` does not yet implement `" ++ op ++ codes "`"
to_string (invalid_backend_selection n) =
    codes "invalid input-backend selection `" ++ n ++ codes "`"
to_string (io e) = codes "I/O error invoking input backend: " ++ e
to_string (virtual_pointer e) = codes "wlr-virtual-pointer transport failed: " ++ e
