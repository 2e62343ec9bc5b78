-- ===== src/Mcp/Desktop.antt =====
-- The tool server on top of the daemon: crates/hyprpilot-mcp/src/server.rs, whose calls of the daemon
-- are handled by crates/hyprpilot-daemon/src/server.rs.
pub mod Calm
pub mod Handlers
pub mod Preview
use hypr_pilot.Prelude.{Result}
use hypr_pilot.Daemon.Replies.{Response}
use hypr_pilot.Daemon.Services.{Services, State}
use hypr_pilot.Daemon.Server.Requests.{handle_request}
use hypr_pilot.Mcp.Session.{Host, ClientError}

-- The host whose daemon is this one; `decode` is what the client makes of an answer, by serde.
unfoldable pub through :
    {Value W R : Type 0}
    → Services W R
    → (Response → Result Value ClientError)
    → Host Value (State W R)
    → Host Value (State W R)
unfolding handle_request
through svc decode base = record base {
  call = λ request st. let r = handle_request svc request st in (decode r.0, r.1);
}
