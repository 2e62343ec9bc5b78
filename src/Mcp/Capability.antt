-- ===== src/Mcp/Capability.antt =====
-- crates/hyprpilot-mcp/src/capability.rs, less the reading of profile files. A `HashSet` is a list
-- that is only asked for membership.
pub mod Grants
use hypr_pilot.Prelude.{Bool, true, false, List, [], ◌∷◌, any, Text, codes, eq_text, if◌then◌else◌}

pub data ToolGroup : Type 0 where
  read window workspace destructive process undo snapshot rules input vision a11y binds : ToolGroup

-- `ToolGroup::name`
unfoldable pub group_name : ToolGroup → Text
group_name read = codes "read"
group_name window = codes "window"
group_name workspace = codes "workspace"
group_name destructive = codes "destructive"
group_name process = codes "process"
group_name undo = codes "undo"
group_name snapshot = codes "snapshot"
group_name rules = codes "rules"
group_name input = codes "input"
group_name vision = codes "vision"
group_name a11y = codes "a11y"
group_name binds = codes "binds"

-- The derived `PartialEq`.
unfoldable pub eq_group : ToolGroup → ToolGroup → Bool
eq_group read read = true
eq_group window window = true
eq_group workspace workspace = true
eq_group destructive destructive = true
eq_group process process = true
eq_group undo undo = true
eq_group snapshot snapshot = true
eq_group rules rules = true
eq_group input input = true
eq_group vision vision = true
eq_group a11y a11y = true
eq_group binds binds = true
eq_group _ _ = false

pub record Profile : Type 0 where
  pub name : Text
  pub allow : List ToolGroup
  pub deny_tools : List Text
  pub allow_tools : List Text

unfoldable pub default_safe : Profile
default_safe = record {
  name = codes "default";
  allow = read ∷ window ∷ workspace ∷ undo ∷ snapshot ∷ rules ∷ [];
  deny_tools = [];
  allow_tools = [];
}

unfoldable pub unrestricted : Profile
unrestricted = record {
  name = codes "unrestricted";
  allow =
      read ∷ window ∷ workspace ∷ destructive ∷ process ∷ undo ∷ snapshot ∷ rules ∷ input ∷ vision
      ∷ a11y ∷ binds ∷ [];
  deny_tools = [];
  allow_tools = [];
}

unfoldable pub allows : Profile → Text → ToolGroup → Bool
unfolding eq_group
allows p tool_name group =
    if any (λ t. eq_text t tool_name) p.deny_tools
    then false
    else if any (λ t. eq_text t tool_name) p.allow_tools
    then true
    else any (λ g. eq_group g group) p.allow
