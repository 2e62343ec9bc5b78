-- ===== src/Mcp/Handle/Answers.antt =====
-- Every request is answered, and by one answer.
use hypr_pilot.Prelude.{
  Bool, true, false, not, ◌≡◌, refl, inl, Option, none, some, Text, codes, eq_text, Result, ok, err,
  if◌then◌else◌, arith,
}
use hypr_pilot.Mcp.Rpc.{JsonRpcRequest, JsonRpcResponse, ErrorCode, response_err, response_ok}
use hypr_pilot.Mcp.Server.{ToolDef, check_call}
use hypr_pilot.Mcp.Tools.Ops.{Dispatch, DispatchError, unknown_tool, invalid_args}
use hypr_pilot.Mcp.Tools.Table.{dispatch}
use hypr_pilot.Mcp.Session.{Host, Session, result_of, tool_error}
use hypr_pilot.Mcp.Calls.{carry_out}
use hypr_pilot.Mcp.Calls.Outcomes.{
  IsAnswer, Keeps, Outcome, tool_error-IsAnswer, plain, plain_error,
}
use hypr_pilot.Mcp.Calls.Harmless.{carry_out-Good}
use hypr_pilot.Mcp.Handle.{
  id_or, refused, dispatched, checked, call_params, called_with, handle_call_tool,
  handle_initialize, handle_list_tools, handle,
}

-- There is an answer, and it is one to `id`.
abbrev pub Answered : {Value : Type 0} → Value → Option (JsonRpcResponse Value) → Type 0
Answered id none = ⊥
Answered id (some r) = IsAnswer id r

if-either : {A : Type 0} (P : A → Type 0) (b : Bool) (x y : A) → P x → P y → P (if b then x else y)
if-either P true x y p q = p
if-either P false x y p q = q

if-not :
    {A : Type 0} (P : A → Type 0) (b : Bool) (x y : A) → b ≡ false → P y → P (if b then x else y)
if-not P true x y h q = absurd (ground (arith, h))
if-not P false x y h q = q

module _ {Value W : Type 0} (host : Host Value W) where
  abbrev Anything : W → Type 0
  Anything w = Unit

  keeps_anything : Keeps host true Anything
  keeps_anything = record {
    connect_keeps = λ w i. tt;
    call_keeps = λ r w q i. tt;
    grim_keeps = λ op w i. tt;
    ocr_text_keeps = λ r l p w i. tt;
    ocr_words_keeps = λ r l p c w i. tt;
  }

  outcome-IsAnswer :
      (id : Value) (r : Result (JsonRpcResponse Value) (JsonRpcResponse Value))
      → Outcome host true Anything keeps_anything id (IsAnswer id) r
      → IsAnswer id (result_of r)
  outcome-IsAnswer id (ok a) h = h
  outcome-IsAnswer id (err a) h = h

  dispatched-IsAnswer :
      (id : Value) (r : Result Dispatch DispatchError) (s : Session W)
      → IsAnswer id (dispatched host id r s).0
  unfolding dispatched refused tool_error response_err
  dispatched-IsAnswer id (ok d) s =
      outcome-IsAnswer id (carry_out host id d s).0
        ((carry_out-Good host true Anything keeps_anything id d (inl refl)).holds s tt).0
  dispatched-IsAnswer id (err (unknown_tool n)) s = plain_error
  dispatched-IsAnswer id (err (invalid_args t m)) s = plain_error

  checked-IsAnswer :
      (id : Value) (name : Text) (args : Value) (r : Result ToolDef (ErrorCode × Text))
      (s : Session W)
      → IsAnswer id (checked host id name args r s).0
  unfolding checked refused
  checked-IsAnswer id name args (err e) s = tool_error-IsAnswer id e.0 e.1
  checked-IsAnswer id name args (ok t) s =
      dispatched-IsAnswer id (dispatch host.serde host.debug name args) s

  called_with-IsAnswer :
      (id : Value) (r : Result (Text × Value) Text) (s : Session W)
      → IsAnswer id (called_with host id r s).0
  unfolding called_with response_err
  called_with-IsAnswer id (err e) s = plain_error
  called_with-IsAnswer id (ok (name, args)) s =
      checked-IsAnswer id name args (check_call s.server name) s

  -- A call is answered, with the null id if it has none.
  pub handle_call_tool-IsAnswer :
      (req : JsonRpcRequest Value) (s : Session W)
      → IsAnswer (id_or host.null req.id) (handle_call_tool host req s).0
  unfolding handle_call_tool
  handle_call_tool-IsAnswer req s =
      called_with-IsAnswer (id_or host.null req.id) (call_params host req.params) s

  -- Every request with an id, unless its method is `notifications/initialized`, is answered with
  -- that id, and the answer holds either a result or an error and not both, whatever the daemon,
  -- grim and tesseract answer.
  pub handle-Answered :
      (req : JsonRpcRequest Value) (id : Value) (s : Session W)
      → eq_text req.method (codes "notifications/initialized") ≡ false
      → Answered id (handle host (record req { id = some id }) s).0
  unfolding handle handle_initialize handle_list_tools response_ok response_err
  handle-Answered req id s h =
      let P = λ (r : Option (JsonRpcResponse Value) × Session W). Answered id r.0 in
      if-either P (not (eq_text req.jsonrpc (codes "2.0"))) _ _ plain_error (
        if-either P (eq_text req.method (codes "initialize")) _ _ plain (
          if-not P (eq_text req.method (codes "notifications/initialized")) _ _ h (
            if-either P (eq_text req.method (codes "ping")) _ _ plain (
              if-either P (eq_text req.method (codes "tools/list")) _ _ plain (
                if-either P (eq_text req.method (codes "tools/call")) _ _
                  (handle_call_tool-IsAnswer (record req { id = some id }) s) plain_error)))))
