-- ===== src/Core/Queries.antt =====
-- crates/hyprpilot-core/src/ipc.rs, `query`, and the two queries of crates/hyprpilot-core/src/query.rs
-- that the daemon's recorded operations ask. What serde makes of a reply is a parameter.
use hypr_pilot.Prelude.{Option, List, ◌++◌, Text, codes, Result, ◌>>=◌, map_err}
use hypr_pilot.Core.Error.{json}
use hypr_pilot.Core.Types.{Client}
use hypr_pilot.Core.Connection.{Io, Send}

module _ {W : Type 0} (send_raw : Send W) where
  unfoldable pub query : {A : Type 0} → (Text → Result A Text) → Text → Io W A
  query from_str name w =
      let r = send_raw (codes "j/" ++ name) w in (r.0 >>= λ raw. map_err json (from_str raw), r.1)

  unfoldable pub clients : (Text → Result (List Client) Text) → Io W (List Client)
  clients from_str = query from_str (codes "clients")

  -- `from_str` also reads an empty object as no window.
  unfoldable pub active_window : (Text → Result (Option Client) Text) → Io W (Option Client)
  active_window from_str w =
      let r = send_raw (codes "j/activewindow") w in
      (r.0 >>= λ raw. map_err json (from_str raw), r.1)
