-- ===== src/Mcp/Server.antt =====
-- crates/hyprpilot-mcp/src/server.rs: which tools are listed, and which calls pass the check at the
-- start of `handle_call_tool`. A schema is its JSON text.
pub mod Gate
use hypr_pilot.Prelude.{
  Bool, Option, none, some, List, ◌++◌, map, filter, find, Text, codes, eq_text, Result, ok, err,
  if◌then◌else◌,
}
use hypr_pilot.Mcp.Rpc.{Tool, ErrorCode, method_not_found, capability_denied}
use hypr_pilot.Mcp.Capability.{ToolGroup, group_name, Profile, allows}

pub record ToolDef : Type 0 where
  pub name : Text
  pub group : ToolGroup
  pub description : Text
  pub mutating : Bool
  pub schema : Text

-- As far as the list and the check use it.
pub record Server : Type 0 where
  pub profile : Profile
  pub registry : List ToolDef

abbrev pub shown_tool : ToolDef → Tool
shown_tool t = record { name = t.name; description = t.description; input_schema = t.schema }

abbrev pub is_allowed : Server → ToolDef → Bool
is_allowed s t = allows s.profile t.name t.group

unfoldable pub visible_tools : Server → List Tool
visible_tools s = map shown_tool (filter (is_allowed s) s.registry)

unfoldable pub find_tool : Server → Text → Option ToolDef
find_tool s name = find (λ (t : ToolDef). eq_text t.name name) s.registry

-- Whether the tool that was found may be called.
unfoldable pub judge : Server → Text → Option ToolDef → Result ToolDef (ErrorCode × Text)
judge s name none = err (method_not_found, codes "unknown tool `" ++ name ++ codes "`")
judge s name (some t) =
    if is_allowed s t
    then ok t
    else err (
      capability_denied,
      codes "tool `"
          ++ t.name
          ++ codes "` is not permitted by the active capability profile `"
          ++ s.profile.name
          ++ codes "` (group: `"
          ++ group_name t.group
          ++ codes "`)",
    )

-- The lookup and the capability check of `handle_call_tool`: the tool that the call goes on with,
-- or the error it returns.
unfoldable pub check_call : Server → Text → Result ToolDef (ErrorCode × Text)
unfolding find_tool judge
check_call s name = judge s name (find_tool s name)
