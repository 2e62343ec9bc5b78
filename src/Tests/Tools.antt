-- ===== src/Tests/Tools.antt =====
-- crates/hyprpilot-mcp/src/tools.rs and server.rs: the theorems at concrete inputs. A tool's
-- arguments are its `dry_run`, and the world is the list of the requests sent.
use hypr_pilot.Prelude.{
  ◌≡◌, ◌≤◌, ◌++◌, refl, inl, Bool, true, false, Option, none, some, List, [], ◌∷◌, Text, codes,
  eq_text, Result, ok, err, Among, arith,
}
use hypr_pilot.Daemon.Protocol.{Request}
use hypr_pilot.Daemon.Protocol as P
use hypr_pilot.Mcp.Capability.{unrestricted, allows}
use hypr_pilot.Mcp.Capability as G
use hypr_pilot.Mcp.Rpc.{JsonRpcRequest}
use hypr_pilot.Mcp.Server.{ToolDef, Server, check_call}
use hypr_pilot.Mcp.Tools.Kinds.{Kind, Args, no_args, mut_no_args, dry_run_of}
use hypr_pilot.Mcp.Tools.Ops.{Serde, forward, parse_args, byte_len, truncate}
use hypr_pilot.Mcp.Tools.Truncate.{truncate-longest}
use hypr_pilot.Mcp.Tools.Arms.{Arm, no_args_arm, mut_no_args_arm}
use hypr_pilot.Mcp.Tools.Table.{arms, run_arm, dispatch}
use hypr_pilot.Mcp.Tools.Registry.{registry, def}
use hypr_pilot.Mcp.Tools.DryRun.{acts}
use hypr_pilot.Mcp.Tools.Listed.{dispatch-registered, dispatch-read_only}
use hypr_pilot.Mcp.Tools.Groups.{request_group}
use hypr_pilot.Mcp.Tools.Groups.Each.{dispatch-allows}
use hypr_pilot.Mcp.Session.{Host, Session}
use hypr_pilot.Mcp.Handle.{handle}
use hypr_pilot.Mcp.Handle.Answers.{Answered, handle-Answered}

abbrev pub Value : Type 0
Value = Option Bool

-- Only the two simplest structs are read.
abbrev read_args : (k : Kind) → Value → Result (Args k) Text
read_args no_args v = ok tt
read_args mut_no_args v = ok (record { dry_run = v })
read_args _ v = err []

abbrev pub test_serde : Serde Value
test_serde = record { is_null = λ v. false; empty_object = none; from_value = read_args }

abbrev same_text : Text → Text
same_text t = t

abbrev no_schema : Kind → Text
no_schema k = []

abbrev pub undo_name : Text
undo_name = codes "undo"

dispatch_undo : dispatch test_serde same_text undo_name (some false) ≡ ok (forward P.undo)
unfolding dispatch arms eq_text no_args_arm mut_no_args_arm
dispatch_undo = refl

abbrev fallback : ToolDef
fallback = record { name = []; group = G.read; description = []; mutating = false; schema = [] }

-- `query_clients`
abbrev first_tool : ToolDef
first_tool = elim (registry no_schema) [ [] ↦ fallback | t ∷ ts ↦ t ]

first_tool-Among : Among first_tool (registry no_schema)
unfolding registry
first_tool-Among = inl refl

dispatch-registered_example :
    (a : Arm) × (dispatch test_serde same_text first_tool.name none
      ≡ run_arm test_serde a first_tool.name none)
    × (first_tool.schema ≡ no_schema a.kind)
dispatch-registered_example =
    dispatch-registered test_serde same_text no_schema first_tool none first_tool-Among

dispatch-read_only_example : acts (forward P.query_clients) ≡ false
dispatch-read_only_example =
    dispatch-read_only test_serde same_text no_schema first_tool none (forward P.query_clients)
      first_tool-Among (unfold registry def in refl)
      (unfold dispatch arms eq_text no_args_arm mut_no_args_arm registry def in refl)

abbrev pub open_server : Server
open_server = record { profile = unrestricted; registry = registry no_schema }

abbrev undo_tool : ToolDef
undo_tool = elim (check_call open_server undo_name) [ ok t ↦ t | err e ↦ fallback ]

dispatch-allows_example :
    (request_group P.undo ≡ some undo_tool.group)
    × (allows unrestricted undo_name undo_tool.group ≡ true)
dispatch-allows_example =
    dispatch-allows test_serde same_text no_schema open_server undo_name undo_tool (some false)
      P.undo refl (unfold check_call registry def allows unrestricted eq_text in refl) dispatch_undo

abbrev Log : Type 0
Log = List Request

-- Every call is answered, and logged.
abbrev log_host : Host Value Log
log_host = record {
  serde = test_serde;
  null = none;
  read_call = λ v. ok (undo_name, v);
  to_string_pretty = λ v. [];
  read_preview = λ v. err [];
  read_monitors = λ v. ok [];
  read_clients = λ v. ok [];
  read_active = λ v. ok none;
  read_pid = λ v. none;
  read_elements = λ v. ok [];
  debug = same_text;
  divided = λ n s. n;
  connect_daemon = λ w. (ok tt, w);
  call = λ r w. (ok none, r ∷ w);
  grim = λ op w. (err [], w);
  base64 = λ b. [];
  ocr_text = λ r l p w. (err [], w);
  ocr_words = λ r l p c w. (ok [], w);
  server_version = codes "0.1.0";
}

abbrev session : Session Log
session = record { server = open_server; connected = false; world = [] }

-- A call of `undo` that says nothing of a dry run.
abbrev pub undo_call : JsonRpcRequest Value
undo_call = record {
  jsonrpc = codes "2.0";
  id = none;
  method = codes "tools/call";
  params = some none;
}

-- Nothing that is read of `null` asks to act.
pub none-Quiet :
    (k : Kind) (name : Text) (v : Value) (p : Args k)
    → v ≡ none
    → parse_args test_serde k name v ≡ ok p
    → ¬ (dry_run_of k p ≡ some false)
unfolding dry_run_of parse_args
none-Quiet no_args name v p e h d = absurd (ground (arith, d))
none-Quiet mut_no_args name v p e h d = absurd (ground (arith, e, h, d))
none-Quiet _ name v p e h d = absurd (ground (arith, h))

handle-Answered_example :
    Answered none (handle log_host (record undo_call { id = some none }) session).0
handle-Answered_example = handle-Answered log_host undo_call none session (unfold eq_text in refl)

truncate-longest_example :
    ((rest : Text) × (truncate (codes "aé" ++ codes "bc") 4 ≡ codes "aé" ++ rest))
    × ((after : Text) × (codes "aé" ++ codes "bc" ≡ truncate (codes "aé" ++ codes "bc") 4 ++ after))
    × (byte_len (truncate (codes "aé" ++ codes "bc") 4) ≤ 4)
truncate-longest_example =
    truncate-longest (codes "aé") (codes "bc") 4 (unfold byte_len in omega arith)
