-- ===== src/Daemon/Server/Access.antt =====
-- crates/hyprpilot-daemon/src/server.rs: the handlers of the accessibility requests.
use hypr_pilot.Prelude.{
  ℕ, ℤ, true, false, Option, none, some, List, Text, codes, Result, ok, err, if◌then◌else◌, ltb,
}
use hypr_pilot.A11y.{Element, A11yError, unavailable, bus, no_application, show_a11y_error}
use hypr_pilot.Core.Error.{Error}
use hypr_pilot.Core.Types.{Client}
use hypr_pilot.Daemon.Replies.{success, failure, elements}
use hypr_pilot.Daemon.Recorded.{core_error}
use hypr_pilot.Daemon.Services.{Services}
use hypr_pilot.Daemon.Server.{Handler, world, moved_on}

-- `walk_opts(max_nodes).max_nodes`
unfoldable pub walk_limit : Option ℕ → ℕ
walk_limit none = 1500
walk_limit (some n) = if ltb 0 n then n else 1500

module _ {W R : Type 0} (svc : Services W R) where
  -- The connection is dropped when the bus is not available.
  unfoldable pub a11y_error_response : A11yError → Handler svc
  a11y_error_response (unavailable m) st = (
    failure (codes "a11y_unavailable") (show_a11y_error (unavailable m)),
    record st { a11y = false },
  )
  a11y_error_response (no_application p) st =
      (failure (codes "a11y_no_app") (show_a11y_error (no_application p)), st)
  a11y_error_response (bus m) st = (failure (codes "a11y_failed") (show_a11y_error (bus m)), st)

  unfoldable pub answer_elements : ℤ → Option Text → Result (List Element) A11yError → Handler svc
  unfolding a11y_error_response
  answer_elements pid query (err e) st = a11y_error_response e st
  answer_elements pid query (ok es) st = (success (elements pid query es), st)

  -- After the connection, the walk.
  unfoldable pub walk_connected :
      ℤ
      → Option Text
      → (W → Result (List Element) A11yError × W)
      → Result Unit A11yError
      → Handler svc
  unfolding a11y_error_response answer_elements
  walk_connected pid query walk (err e) st = a11y_error_response e st
  walk_connected pid query walk (ok u) st =
      let r = walk (world svc st) in
      answer_elements pid query r.0 (moved_on svc r.1 (record st { a11y = true }))

  -- `a11y_conn`, and the walk.
  unfoldable pub walk_app :
      ℤ → Option Text → (W → Result (List Element) A11yError × W) → Handler svc
  unfolding walk_connected
  walk_app pid query walk st =
      let c = svc.connect_a11y (world svc st) in
      if st.a11y
      then walk_connected pid query walk (ok tt) st
      else walk_connected pid query walk c.0 (moved_on svc c.1 st)

  -- With the process that was resolved, if there is one.
  unfoldable pub walk_focused :
      Result (Option Client) Error
      → Option Text
      → (ℤ → W → Result (List Element) A11yError × W)
      → Handler svc
  unfolding walk_app core_error
  walk_focused (err e) query walk st = (core_error e, st)
  walk_focused (ok none) query walk st = (
    failure (codes "a11y_no_app")
        (codes "no focused window to resolve a pid from; pass `pid` explicitly"),
    st,
  )
  walk_focused (ok (some c)) query walk st = walk_app c.pid query (walk c.pid) st

  -- `resolve_a11y_pid`, and the rest of the handler.
  unfoldable pub walk_resolved :
      Option ℤ → Option Text → (ℤ → W → Result (List Element) A11yError × W) → Handler svc
  unfolding walk_focused walk_app
  walk_resolved (some p) query walk st = walk_app p query (walk p) st
  walk_resolved none query walk st =
      let r = svc.cached_active_window (world svc st) in
      walk_focused r.0 query walk (moved_on svc r.1 st)

  unfoldable pub a11y_tree : Option ℤ → Option ℕ → Handler svc
  unfolding walk_resolved walk_limit
  a11y_tree pid max_nodes = walk_resolved pid none (λ p. svc.snapshot_app p (walk_limit max_nodes))

  unfoldable pub a11y_find : Option ℤ → Text → Option Text → Option ℕ → Handler svc
  unfolding walk_resolved walk_limit
  a11y_find pid query role max_nodes =
      walk_resolved pid (some query) (λ p. svc.find_elements p query role (walk_limit max_nodes))
