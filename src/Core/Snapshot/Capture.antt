-- ===== src/Core/Snapshot/Capture.antt =====
-- crates/hyprpilot-core/src/snapshot.rs, `Snapshot::capture`. The six queries run at the same time;
-- here they are asked in turn, up to the first that fails. The time is an argument.
use hypr_pilot.Prelude.{
  ℤ, Option, none, some, List, [], ◌∷◌, map, Text, eq_ℤ, pos, if◌then◌else◌, or_option,
}
use hypr_pilot.Core.Types.{Version, Client, Workspace, ActiveWorkspace, Monitor}
use hypr_pilot.Core.Connection.{Io, done, and_then}
use hypr_pilot.Core.Snapshot.{WindowSnapshot, WorkspaceSnapshot, MonitorSnapshot, Snapshot}

-- What the queries answer.
pub record World : Type 0 where
  pub version : Version
  pub clients : List Client
  pub workspaces : List Workspace
  pub monitors : List Monitor
  pub active_window : Option Client
  pub active_workspace : ActiveWorkspace

-- The queries themselves.
pub record Queried (W : Type 0) : Type 0 where
  pub version : Io W Version
  pub clients : Io W (List Client)
  pub workspaces : Io W (List Workspace)
  pub monitors : Io W (List Monitor)
  pub active_window : Io W (Option Client)
  pub active_workspace : Io W ActiveWorkspace

-- `monitor_name_by_id`: of two monitors with one id the later is kept.
unfoldable pub monitor_name : List Monitor → ℤ → Option Text
monitor_name [] id = none
monitor_name (m ∷ ms) id =
    or_option (monitor_name ms id) (if eq_ℤ m.id id then some m.name else none)

unfoldable pub window_snapshot : List Monitor → Client → WindowSnapshot
unfolding monitor_name
window_snapshot monitors c = record {
  address = c.address;
  pid = c.pid;
  initial_class = c.initial_class;
  initial_title = c.initial_title;
  class = c.class;
  title = c.title;
  workspace_id = c.workspace.id;
  monitor_name = elim (monitor_name monitors c.monitor) [ none ↦ [] | some n ↦ n ];
  at = c.at;
  size = c.size;
  floating = c.floating;
  fullscreen = c.fullscreen;
  pinned = c.pinned;
}

unfoldable pub workspace_snapshot : Workspace → WorkspaceSnapshot
workspace_snapshot w = record { id = w.id; name = w.name; monitor = w.monitor; windows = w.windows }

unfoldable pub monitor_snapshot : Monitor → MonitorSnapshot
monitor_snapshot m = record {
  name = m.name;
  active_workspace_id = elim m.active_workspace [ none ↦ pos 0 | some w ↦ w.id ];
}

unfoldable pub snapshot_of : Text → ℤ → World → Snapshot
unfolding window_snapshot workspace_snapshot monitor_snapshot
snapshot_of name now w = record {
  name = name;
  created_at_unix = now;
  hyprland_version = w.version.version;
  monitors = map monitor_snapshot w.monitors;
  workspaces = map workspace_snapshot w.workspaces;
  windows = map (window_snapshot w.monitors) w.clients;
  active_window_address = elim w.active_window [ none ↦ none | some c ↦ some c.address ];
  active_workspace_id = w.active_workspace.id;
}

unfoldable pub capture : {W : Type 0} → Queried W → Text → ℤ → Io W Snapshot
unfolding and_then done snapshot_of
capture q name now = and_then q.version λ version. and_then q.clients λ clients.
    and_then q.workspaces λ workspaces. and_then q.monitors λ monitors.
      and_then q.active_window λ active_window. and_then q.active_workspace λ active_workspace.
        done (
          snapshot_of name now (record {
            version = version;
            clients = clients;
            workspaces = workspaces;
            monitors = monitors;
            active_window = active_window;
            active_workspace = active_workspace;
          }))
