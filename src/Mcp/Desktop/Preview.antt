-- ===== src/Mcp/Desktop/Preview.antt =====
-- A tool call that does not ask to act, through the daemon: the desktop stays as it is.
use hypr_pilot.Prelude.{
  Bool, true, false, not, Option, ◌≡◌, inl, inr, none, some, Text, Result, ok, arith,
}
use hypr_pilot.Daemon.Protocol as P
use hypr_pilot.Daemon.Protocol.{Request}
use hypr_pilot.Daemon.Replies.{Response}
use hypr_pilot.Daemon.Services.{Services, State}
use hypr_pilot.Daemon.Server.{world}
use hypr_pilot.Daemon.Server.Access.{a11y_tree, a11y_find, walk_limit}
use hypr_pilot.Daemon.Server.Snapshots.{
  diff_live, preview_live, snapshot_list, snapshot_diff, snapshot_preview, rules_list,
  rules_validate,
}
use hypr_pilot.Daemon.Server.Requests.{handle_request}
use hypr_pilot.Input.Keys.{KeyCombo}
use hypr_pilot.Mcp.Rpc.{JsonRpcRequest}
use hypr_pilot.Mcp.Tools.DryRun.{acts_request}
use hypr_pilot.Mcp.Session.{Host, Session, ClientError}
use hypr_pilot.Mcp.Calls.Outcomes.{Keeps}
use hypr_pilot.Mcp.Handle.{call_params, handle_call_tool}
use hypr_pilot.Mcp.Handle.Quiet.{AsksToAct, handle_call_tool-keeps}
use hypr_pilot.Mcp.Desktop.{through}
use hypr_pilot.Mcp.Desktop.Calm.{Calm}
use hypr_pilot.Mcp.Desktop.Handlers.{
  loaded-Safe, diff_live-Safe, preview_live-Safe, snapshot_save-Safe, snapshot_delete-Safe,
  run_bind-Safe, walk_resolved-Safe,
}

module _ {W R : Type 0} (svc : Services W R) (I : W → Type 0) (calm : Calm svc I) where
  run_bind_request :
      (dry : Bool) (k : Bool → State W R → Response × State W R) (st : State W R)
      → not dry ≡ false
      → I (world svc (k true st).1)
      → I (world svc (k dry st).1)
  run_bind_request true k st h i = i
  run_bind_request false k st h i = absurd (ground (arith, h))

  run_bind_dry :
      (c : KeyCombo) (s : Option Text) (st : State W R)
      → I (world svc st)
      → I (world svc (handle_request svc (P.run_bind c s true) st).1)
  unfolding handle_request
  run_bind_dry c s st i = run_bind-Safe svc I calm c s st i

  -- The daemon's side: a request that does not act keeps what reads and snapshot files keep.
  handle_request-keeps :
      (r : Request) (st : State W R)
      → acts_request r ≡ false
      → I (world svc st)
      → I (world svc (handle_request svc r st).1)
  unfolding handle_request acts_request a11y_tree a11y_find snapshot_diff snapshot_preview
      snapshot_list rules_list rules_validate
  handle_request-keeps P.ping st h i = i
  handle_request-keeps P.shutdown st h i = i
  handle_request-keeps P.query_clients st h i = calm.cached_clients.holds (world svc st) i
  handle_request-keeps P.query_workspaces st h i = calm.cached_workspaces.holds (world svc st) i
  handle_request-keeps P.query_monitors st h i = calm.cached_monitors.holds (world svc st) i
  handle_request-keeps P.query_active_window st h i =
      calm.cached_active_window.holds (world svc st) i
  handle_request-keeps P.query_active_workspace st h i =
      calm.cached_active_workspace.holds (world svc st) i
  handle_request-keeps P.query_version st h i = calm.cached_version.holds (world svc st) i
  handle_request-keeps P.query_cursor_pos st h i = calm.cursor_position.holds (world svc st) i
  handle_request-keeps P.query_binds st h i = calm.cached_binds.holds (world svc st) i
  handle_request-keeps P.undo_list st h i = i
  handle_request-keeps (P.snapshot_save n) st h i = snapshot_save-Safe svc I calm n st i
  handle_request-keeps P.snapshot_list st h i = i
  handle_request-keeps (P.snapshot_diff n) st h i =
      loaded-Safe svc I calm n (diff_live svc) (diff_live-Safe svc I calm) st i
  handle_request-keeps (P.snapshot_preview n) st h i =
      loaded-Safe svc I calm n (preview_live svc) (preview_live-Safe svc I calm) st i
  handle_request-keeps (P.snapshot_delete n) st h i = snapshot_delete-Safe svc I calm n st i
  handle_request-keeps P.rules_list st h i = i
  handle_request-keeps P.rules_validate st h i = i
  handle_request-keeps P.rules_path st h i = i
  handle_request-keeps (P.a11y_tree p n) st h i =
      walk_resolved-Safe svc I calm none (λ p. svc.snapshot_app p (walk_limit n))
        (λ p. calm.snapshot_app p (walk_limit n)) p st i
  handle_request-keeps (P.a11y_find p q r n) st h i =
      walk_resolved-Safe svc I calm (some q) (λ p. svc.find_elements p q r (walk_limit n))
        (λ p. calm.find_elements p q r (walk_limit n)) p st i
  handle_request-keeps (P.run_bind c s d) st h i =
      run_bind_request d (λ d. handle_request svc (P.run_bind c s d)) st h (run_bind_dry c s st i)
  handle_request-keeps _ st h i = absurd (ground (arith, h))

  module _ {Value : Type 0} (decode : Response → Result Value ClientError)
      (base : Host Value (State W R)) where
    through-Keeps :
        Keeps base false (λ st. I (world svc st))
        → Keeps (through svc decode base) false (λ st. I (world svc st))
    unfolding through
    through-Keeps k = record {
      connect_keeps = k.connect_keeps;
      call_keeps = λ r st q i. elim q [
        | inl f ↦ absurd (ground (arith, f))
        | inr n ↦ handle_request-keeps r st n i
      ];
      grim_keeps = k.grim_keeps;
      ocr_text_keeps = k.ocr_text_keeps;
      ocr_words_keeps = k.ocr_words_keeps;
    }

    -- Let the tool server call this daemon. If no tool call with arguments that the params of a
    -- request hold has arguments which the found arm reads as `dry_run: false`, then its handling
    -- keeps whatever of the world the queries, the accessibility bus, the writes of snapshot files
    -- and the connecting, grim and tesseract keep, on every path through both programs: what only
    -- dispatches and input change stays as it is.
    pub call_tool-world :
        (req : JsonRpcRequest Value) (s : Session (State W R))
        → Keeps base false (λ st. I (world svc st))
        → ((name : Text) (args : Value)
            → call_params (through svc decode base) req.params ≡ ok (name, args)
            → ¬ AsksToAct (through svc decode base) name args)
        → I (world svc s.world)
        → I (world svc (handle_call_tool (through svc decode base) req s).1.world)
    call_tool-world req s k =
        handle_call_tool-keeps (through svc decode base) (λ st. I (world svc st)) (through-Keeps k)
          req s
