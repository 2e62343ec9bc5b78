-- ===== src/Mcp/Session.antt =====
-- crates/hyprpilot-mcp/src/server.rs: the server's session, its calls of the daemon, and how it
-- answers errors; with crates/hyprpilot-daemon/src/client.rs, `ClientError`.
use hypr_pilot.Prelude.{
  ℕ, ℤ, Bool, true, false, ◌||◌, Option, List, [], ◌∷◌, ◌++◌, Text, codes, eq_text, Result, ok, err,
  if◌then◌else◌, show_ℕ,
}
use hypr_pilot.Core.Types.{Client, Monitor}
use hypr_pilot.Core.Snapshot.Preview.{SnapshotRestorePreview}
use hypr_pilot.Daemon.Protocol.{Request}
use hypr_pilot.Vision.Geometry.{Region, Psm}
use hypr_pilot.Vision.TextSearch.{Word, TextMatch}
use hypr_pilot.Mcp.Rpc.{
  ErrorCode, tool_execution, invalid_params, JsonRpcResponse, response_ok, response_err, Content,
  called,
}
use hypr_pilot.Mcp.Server.{Server}
use hypr_pilot.A11y.{Element}
use hypr_pilot.Mcp.Tools.Ops.{CaptureOp, Serde}

pub data ClientError : Type 0 where
  connect : (path source : Text) → ClientError
  closed : ClientError
  io : (message : Text) → ClientError
  encode : (message : Text) → ClientError
  id_mismatch : (expected got : ℕ) → ClientError
  rpc : (code message : Text) → ClientError

-- The `Display` that thiserror derives.
unfoldable pub show_client_error : ClientError → Text
show_client_error (connect p s) = codes "daemon socket not reachable at " ++ p ++ codes ": " ++ s
show_client_error closed = codes "daemon closed the connection unexpectedly"
show_client_error (io e) = codes "I/O failure talking to daemon: " ++ e
show_client_error (encode e) = codes "failed to encode RPC request: " ++ e
show_client_error (id_mismatch e g) =
    codes "daemon returned response with mismatched id (expected "
    ++ show_ℕ e
    ++ codes ", got "
    ++ show_ℕ g
    ++ codes ")"
show_client_error (rpc c m) = codes "daemon error [" ++ c ++ codes "]: " ++ m

-- What is printed as JSON.
pub data Printed (Value : Type 0) : Type 0 where
  value : Value → Printed Value
  restore_preview : SnapshotRestorePreview → Printed Value
  text_found : (query : Text) (matches : List TextMatch) → Printed Value
  text_clicked : (clicked : TextMatch) (x y : ℤ) (total : ℕ) → Printed Value
  element_clicked : (clicked : Element) (x y : ℤ) (total : ℕ) → Printed Value

-- What the server uses: serde, the daemon behind its socket, and grim and tesseract with their
-- detection. `W` is the state of all of these. `divided n s` is `(n as f64 / s).round() as i32`, and
-- a text's `debug` its `Debug` form.
pub record Host (Value W : Type 0) : Type 0 where
  pub serde : Serde Value
  pub null : Value
  pub read_call : Value → Result (Text × Value) Text
  pub to_string_pretty : Printed Value → Text
  pub read_preview : Value → Result SnapshotRestorePreview Text
  pub read_monitors : Value → Result (List Monitor) Text
  pub read_clients : Value → Result (List Client) Text
  pub read_active : Value → Result (Option Client) Text
  pub read_pid : Value → Option ℤ
  pub read_elements : Value → Result (List Element) Text
  pub debug : Text → Text
  pub divided : ℤ → ℕ → ℤ
  pub connect_daemon : W → Result Unit ClientError × W
  pub call : Request → W → Result Value ClientError × W
  pub grim : CaptureOp → W → Result (List ℕ) Text × W
  pub base64 : List ℕ → Text
  pub ocr_text : Option Region → Text → Psm → W → Result Text Text × W
  pub ocr_words : Option Region → Text → Psm → ℤ → W → Result (List Word) Text × W
  pub server_version : Text

pub record Session (W : Type 0) : Type 0 where
  pub server : Server
  pub connected : Bool
  pub world : W

unfoldable pub classify_daemon_error : ClientError → ErrorCode × Text
unfolding show_client_error
classify_daemon_error (rpc c m) =
    let text = codes "[" ++ c ++ codes "] " ++ m in
    if eq_text c (codes "snapshot_invalid_name") || eq_text c (codes "snapshot_not_found")
    then (invalid_params, text)
    else (tool_execution, text)
classify_daemon_error e = (tool_execution, show_client_error e)

abbrev pub text_result : {Value : Type 0} → Value → Text → JsonRpcResponse Value
text_result id body = response_ok id (called (Content.text body ∷ []) false)

unfoldable pub tool_error : {Value : Type 0} → Value → ErrorCode → Text → JsonRpcResponse Value
unfolding response_ok response_err
tool_error id tool_execution message = response_ok id (called (Content.text message ∷ []) true)
tool_error id c message = response_err id c message

abbrev pub result_of :
    {Value : Type 0}
    → Result (JsonRpcResponse Value) (JsonRpcResponse Value)
    → JsonRpcResponse Value
result_of (ok r) = r
result_of (err r) = r

-- A step of a handler, which may end it with an answer.
abbrev pub Step : Type 0 → Type 0 → Type 0 → Type 0
Step Value W A = Session W → Result A (JsonRpcResponse Value) × Session W

module _ {Value W : Type 0} where
  infixl 5 ◌>>=◌ ◌>>◌
  unfoldable pub ◌>>=◌ : {A B : Type 0} → Step Value W A → (A → Step Value W B) → Step Value W B
  ◌>>=◌ m f s = let r = m s in elim r.0 [ ok a ↦ f a r.1 | err e ↦ (err e, r.1) ]

  abbrev pub ◌>>◌ : {A B : Type 0} → Step Value W A → Step Value W B → Step Value W B
  m >> k = m >>= λ _. k

  unfoldable pub give : {A : Type 0} → A → Step Value W A
  give a s = (ok a, s)

  unfoldable pub fail : {A : Type 0} → JsonRpcResponse Value → Step Value W A
  fail r s = (err r, s)

  -- `if !b { return r }`
  unfoldable pub require : Bool → JsonRpcResponse Value → Step Value W Unit
  unfolding give fail
  require true r = give tt
  require false r = fail r

  -- Either way there is an answer.
  abbrev pub answer :
      Step Value W (JsonRpcResponse Value) → Session W → JsonRpcResponse Value × Session W
  answer m s = let r = m s in (result_of r.0, r.1)

module _ {Value W : Type 0} (host : Host Value W) where
  -- A call over a connection.
  unfoldable pub call_connected : Request → Session W → Result Value ClientError × Session W
  call_connected request s =
      let r = host.call request s.world in (r.0, record s { connected = true; world = r.1 })

  unfoldable pub call_after_connect :
      Request → Result Unit ClientError × W → Session W → Result Value ClientError × Session W
  unfolding call_connected
  call_after_connect request (err e, w) s = (err e, record s { world = w })
  call_after_connect request (ok u, w) s = call_connected request (record s { world = w })

  -- `call_daemon`, with `daemon`, which connects if there is no connection.
  unfoldable pub call_daemon : Request → Session W → Result Value ClientError × Session W
  unfolding call_connected call_after_connect
  call_daemon request s =
      if s.connected
      then call_connected request s
      else call_after_connect request (host.connect_daemon s.world) s

  -- The error arm that drops the connection, so that the next call connects anew.
  unfoldable pub or_tool_error :
      {A : Type 0}
      → Value
      → Result A ClientError × Session W
      → Result A (JsonRpcResponse Value) × Session W
  unfolding tool_error classify_daemon_error
  or_tool_error id (ok v, s) = (ok v, s)
  or_tool_error id (err e, s) =
      let c = classify_daemon_error e in
      (err (tool_error id c.0 c.1), record s { connected = false })

  -- A call whose failure is answered.
  unfoldable pub ask : Value → Request → Step Value W Value
  unfolding call_daemon or_tool_error
  ask id request s = or_tool_error id (call_daemon request s)

  -- `run_input`
  unfoldable pub run_input : Value → Request → Step Value W Unit
  unfolding ask
  run_input id request = ask id request >>= λ _. give tt

module _ {Value W : Type 0} where
  -- What serde reads of a daemon's value.
  unfoldable pub or_malformed : {A : Type 0} → Value → Text → Result A Text → Step Value W A
  unfolding tool_error
  or_malformed id what (ok a) = give a
  or_malformed id what (err e) =
      fail (
        tool_error id tool_execution
          (codes "daemon returned malformed " ++ what ++ codes ": " ++ e))
