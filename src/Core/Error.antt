-- ===== src/Core/Error.antt =====
-- crates/hyprpilot-core/src/error.rs. Errors of the standard library and of serde are their texts.
use hypr_pilot.Prelude.{Text, codes, ◌++◌}

pub data Error : Type 0 where
  no_runtime_dir : Error
  no_instance socket_missing io json : Text → Error
  -- the verb and the message
  rejected : Text → Text → Error
  unknown_dispatcher protocol validation not_found : Text → Error

unfoldable pub to_string : Error → Text
to_string no_runtime_dir = codes "XDG_RUNTIME_DIR is not set; cannot locate Hyprland sockets"
to_string (no_instance dir) =
    codes
      "no live Hyprland instance found (HYPRLAND_INSTANCE_SIGNATURE unset and no instance directory with a .socket.sock under "
    ++ dir
    ++ codes ")"
to_string (socket_missing p) = codes "Hyprland control socket not found at " ++ p
to_string (io e) = codes "I/O failure talking to Hyprland: " ++ e
to_string (json e) = codes "failed to parse Hyprland JSON response: " ++ e
to_string (rejected verb message) =
    codes "Hyprland rejected dispatcher `" ++ verb ++ codes "`: " ++ message
to_string (unknown_dispatcher verb) =
    codes "Hyprland does not recognise dispatcher `" ++ verb ++ codes "`"
to_string (protocol e) = codes "unexpected Hyprland response: " ++ e
to_string (validation e) = codes "validation error: " ++ e
to_string (not_found e) = codes "not found: " ++ e
