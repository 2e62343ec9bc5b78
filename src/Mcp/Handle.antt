-- ===== src/Mcp/Handle.antt =====
-- crates/hyprpilot-mcp/src/server.rs: `handle` and `handle_call_tool`, from a request to the answer.
pub mod Answers
pub mod Quiet
use hypr_pilot.Prelude.{
  Bool, true, false, not, Option, none, some, List, [], ◌∷◌, ◌++◌, Text, codes, eq_text, Result, ok,
  err, if◌then◌else◌,
}
use hypr_pilot.Mcp.Rpc.{
  JsonRpcRequest, JsonRpcResponse, ErrorCode, invalid_request, method_not_found, invalid_params,
  response_ok, response_err, initialized, empty_object, tools, protocol_version,
}
use hypr_pilot.Mcp.Server.{ToolDef, visible_tools, check_call}
use hypr_pilot.Mcp.Tools.Ops.{Dispatch, DispatchError, unknown_tool, invalid_args}
use hypr_pilot.Mcp.Tools.Table.{dispatch}
use hypr_pilot.Mcp.Session.{Host, Session, tool_error, Step, answer}
use hypr_pilot.Mcp.Calls.{carry_out}

abbrev instructions : Text
instructions =
    codes
      "HyprPilot exposes Hyprland window/workspace control as MCP tools. Mutating tools default to dry_run=true; pass dry_run=false to actually apply. Selectors use Hyprland's grammar: `active`, `class:Name`, `pid:N`, `title:Foo`, `address:0x<hex>`. Workspace targets: `2`, `+1`, `prev`, `next`, `empty`, `name:foo`, `special:term`."

-- `req.id.clone().unwrap_or(Value::Null)`
abbrev pub id_or {ℓ} : {A : Type ℓ} → A → Option A → A
id_or null none = null
id_or null (some id) = id

module _ {Value W : Type 0} (host : Host Value W) where
  abbrev pub Answer : Type 0
  Answer = JsonRpcResponse Value × Session W

  -- A refused call changes nothing.
  unfoldable pub refused : Value → ErrorCode × Text → Session W → Answer
  unfolding tool_error
  refused id e s = (tool_error id e.0 e.1, s)

  unfoldable pub dispatched : Value → Result Dispatch DispatchError → Session W → Answer
  unfolding refused carry_out
  dispatched id (ok d) s = answer (carry_out host id d) s
  dispatched id (err (unknown_tool name)) s =
      refused id (method_not_found, codes "unknown tool `" ++ name ++ codes "`") s
  dispatched id (err (invalid_args tool message)) s =
      refused id (invalid_params, codes "invalid arguments for `" ++ tool ++ codes "`: " ++ message)
        s

  -- After the check of the name and the profile.
  unfoldable pub checked :
      Value → Text → Value → Result ToolDef (ErrorCode × Text) → Session W → Answer
  unfolding dispatched refused
  checked id name args (err e) s = refused id e s
  checked id name args (ok t) s = dispatched id (dispatch host.serde host.debug name args) s

  unfoldable pub call_params : Option Value → Result (Text × Value) Text
  call_params none = err (codes "missing params")
  call_params (some p) = host.read_call p

  unfoldable pub called_with : Value → Result (Text × Value) Text → Session W → Answer
  unfolding checked response_err
  called_with id (err e) s = (response_err id invalid_params e, s)
  called_with id (ok (name, args)) s = checked id name args (check_call s.server name) s

  unfoldable pub handle_call_tool : JsonRpcRequest Value → Session W → Answer
  unfolding called_with call_params
  handle_call_tool req s = called_with (id_or host.null req.id) (call_params req.params) s

  unfoldable pub handle_initialize : JsonRpcRequest Value → JsonRpcResponse Value
  unfolding response_ok
  handle_initialize req =
      response_ok (id_or host.null req.id)
        (initialized protocol_version (codes "hyprpilot-mcp") host.server_version instructions)

  unfoldable pub handle_list_tools : JsonRpcRequest Value → Session W → JsonRpcResponse Value
  unfolding response_ok
  handle_list_tools req s = response_ok (id_or host.null req.id) (tools (visible_tools s.server))

  -- `req.id.map(…)`: only a request with an id is answered.
  abbrev pub only_request :
      Option Value
      → (Value → JsonRpcResponse Value)
      → Session W
      → Option (JsonRpcResponse Value) × Session W
  only_request none f s = (none, s)
  only_request (some id) f s = (some (f id), s)

  unfoldable pub handle :
      JsonRpcRequest Value → Session W → Option (JsonRpcResponse Value) × Session W
  unfolding handle_call_tool handle_initialize handle_list_tools response_ok response_err
  handle req s =
      let invalid =
        only_request req.id
          (λ id. response_err id invalid_request (codes "jsonrpc must be \"2.0\"")) s in
      let pong = only_request req.id (λ id. response_ok id empty_object) s in
      let call = handle_call_tool req s in
      let unknown =
        only_request req.id
          (λ id.
            response_err id method_not_found
              (codes "method `" ++ req.method ++ codes "` is not supported"))
          s in
      if not (eq_text req.jsonrpc (codes "2.0"))
      then invalid
      else if eq_text req.method (codes "initialize")
      then (some (handle_initialize req), s)
      else if eq_text req.method (codes "notifications/initialized")
      then (none, s)
      else if eq_text req.method (codes "ping")
      then pong
      else if eq_text req.method (codes "tools/list")
      then (some (handle_list_tools req s), s)
      else if eq_text req.method (codes "tools/call")
      then (some call.0, call.1)
      else unknown
