-- ===== src/Mcp/Rpc.antt =====
-- crates/hyprpilot-mcp/src/protocol.rs: the JSON-RPC envelope. A result is kept as what it is made
-- of, before serde turns it into JSON.
use hypr_pilot.Prelude.{ℤ, negsuc, Bool, Option, none, some, List, Text, codes}

pub record JsonRpcRequest (Value : Type 0) : Type 0 where
  pub jsonrpc : Text
  pub id : Option Value
  pub method : Text
  pub params : Option Value

pub data ErrorCode : Type 0 where
  parse_error invalid_request method_not_found invalid_params internal_error : ErrorCode
  tool_execution capability_denied : ErrorCode

unfoldable pub code : ErrorCode → ℤ
code parse_error = negsuc 32699
code invalid_request = negsuc 32599
code method_not_found = negsuc 32600
code invalid_params = negsuc 32601
code internal_error = negsuc 32602
code tool_execution = negsuc 31999
code capability_denied = negsuc 32000

pub record JsonRpcError (Value : Type 0) : Type 0 where
  pub code : ℤ
  pub message : Text
  pub error_data : Option Value

-- What a client sees of a tool.
pub record Tool : Type 0 where
  pub name : Text
  pub description : Text
  pub input_schema : Text

-- An image is base64.
pub data Content : Type 0 where
  text : Text → Content
  image : (base64 mime_type : Text) → Content

-- `InitializeResult`, an empty object, `ListToolsResult`, `CallToolResult`.
pub data RpcResult : Type 0 where
  initialized : (version name server_version instructions : Text) → RpcResult
  empty_object : RpcResult
  tools : List Tool → RpcResult
  called : (content : List Content) (is_error : Bool) → RpcResult

pub record JsonRpcResponse (Value : Type 0) : Type 0 where
  pub jsonrpc : Text
  pub id : Value
  pub result : Option RpcResult
  pub error : Option (JsonRpcError Value)

module _ {Value : Type 0} where
  -- `JsonRpcResponse::ok`
  unfoldable pub response_ok : Value → RpcResult → JsonRpcResponse Value
  response_ok id result = record {
    jsonrpc = codes "2.0";
    id = id;
    result = some result;
    error = none;
  }

  -- `JsonRpcResponse::err`
  unfoldable pub response_err : Value → ErrorCode → Text → JsonRpcResponse Value
  unfolding code
  response_err id c message = record {
    jsonrpc = codes "2.0";
    id = id;
    result = none;
    error = some (record { code = code c; message = message; error_data = none });
  }

abbrev pub protocol_version : Text
protocol_version = codes "2024-11-05"
