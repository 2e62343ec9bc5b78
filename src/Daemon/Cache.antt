-- ===== src/Daemon/Cache.antt =====
-- crates/hyprpilot-daemon/src/cache.rs, less `run` and `seed`: the world model between the clients
-- and Hyprland. An `Instant` is a number of nanoseconds. A read takes the lock, asks Hyprland
-- without it, and takes it again to write, so a read is three steps here: `get`, the query's
-- result, which is an argument, and `set`.
pub mod Invalidation
pub mod Reads
pub mod Table
pub mod Titles
use hypr_pilot.Prelude.{
  ℕ, ℤ, pos, ◌-◌, Bool, true, false, Option, none, some, List, [], ◌∷◌, find, any, ltb, eq_ℤ, Text,
  codes, eq_text, if◌then◌else◌, Result, ok, err,
}
use hypr_pilot.Core.Error.{Error}
use hypr_pilot.Core.Events.{Event, field}
use hypr_pilot.Core.Types.{Bind, Version, Client, Workspace, ActiveWorkspace, Monitor}

pub record Cached (T : Type 0) : Type 0 where
  pub value : Option T
  pub dirty : Bool
  pub refreshed_at : Option ℕ

abbrev pub max_age : ℕ
max_age = 5000000000

module _ {T : Type 0} where
  -- `Cached::default`
  abbrev pub cached_default : Cached T
  cached_default = record { value = none; dirty = true; refreshed_at = none }

  unfoldable pub set : ℕ → T → Cached T → Cached T
  set now value c = record { value = some value; dirty = false; refreshed_at = some now }

  -- The match on the value and its time.
  abbrev pub fresh : ℕ → Option T → Option ℕ → Option T
  fresh now (some v) (some at) = if ltb (now - at) max_age then some v else none
  fresh now _ _ = none

  unfoldable pub get : ℕ → Cached T → Option T
  get now c = if c.dirty then none else fresh now c.value c.refreshed_at

  abbrev pub mark : Cached T → Cached T
  mark c = record c { dirty = true }

pub record Inner : Type 0 where
  pub clients : Cached (List Client)
  pub workspaces : Cached (List Workspace)
  pub monitors : Cached (List Monitor)
  pub active_workspace : Cached ActiveWorkspace
  pub binds : Cached (List Bind)
  pub version : Cached Version

abbrev pub inner_default : Inner
inner_default = record {
  clients = cached_default;
  workspaces = cached_default;
  monitors = cached_default;
  active_workspace = cached_default;
  binds = cached_default;
  version = cached_default;
}

-- The write of `clients`, at time `done`.
unfoldable pub write_clients : ℕ → List Client → Inner → Inner
unfolding set
write_clients done v inner = record inner { clients = set done v inner.clients }

-- `clients` after its first locking, with no event before its second: `cached` is what it read,
-- `asked` the answer of the query, and `done` the time of the write.
unfoldable pub refresh_clients :
    ℕ
    → Option (List Client)
    → Result (List Client) Error
    → Inner
    → Result (List Client) Error × Inner
unfolding write_clients
refresh_clients done (some v) asked inner = (ok v, inner)
refresh_clients done none (err e) inner = (err e, inner)
refresh_clients done none (ok v) inner = (ok v, write_clients done v inner)

unfoldable pub read_clients :
    (now done : ℕ) → Result (List Client) Error → Inner → Result (List Client) Error × Inner
unfolding get refresh_clients
read_clients now done asked inner = refresh_clients done (get now inner.clients) asked inner

unfoldable pub active_from : List Client → Option Client
active_from clients = find (λ (c : Client). eq_ℤ c.focus_history_id (pos 0)) clients

-- `list.iter_mut().find(…)` and the assignment of the title
unfoldable pub patch_title : Text → Text → List Client → List Client
patch_title addr title [] = []
patch_title addr title (c ∷ cs) =
    if eq_text c.address addr
    then record c { title = title } ∷ cs
    else c ∷ patch_title addr title cs

unfoldable pub patch_value : Text → Text → Option (List Client) → Option (List Client)
unfolding patch_title
patch_value addr title none = none
patch_value addr title (some list) = some (patch_title addr title list)

-- The arm of `windowtitlev2`.
unfoldable pub apply_title : Option Text → Option Text → Inner → Inner
unfolding patch_value
apply_title (some addr) (some title) inner = record inner {
  clients = record inner.clients { value = patch_value addr title inner.clients.value };
}
apply_title _ _ inner = record inner { clients = mark inner.clients }

abbrev pub one_of : List Text → Text → Bool
one_of kinds kind = any (λ k. eq_text kind k) kinds

abbrev pub window_kinds : List Text
window_kinds =
    codes "openwindow"
    ∷ codes "closewindow"
    ∷ codes "fullscreen"
    ∷ codes "movewindow"
    ∷ codes "movewindowv2"
    ∷ []

-- The match on the kind, first to last arm.
unfoldable pub apply_event : Inner → Event → Inner
unfolding apply_title
apply_event inner ev =
    if one_of window_kinds ev.kind
    then record inner {
      clients = mark inner.clients;
      workspaces = mark inner.workspaces;
      active_workspace = mark inner.active_workspace;
    }
    else if one_of (codes "activewindow" ∷ codes "activewindowv2" ∷ []) ev.kind
    then record inner { clients = mark inner.clients }
    else if eq_text ev.kind (codes "windowtitlev2")
    then apply_title (field ev (codes "address")) (field ev (codes "title")) inner
    else if eq_text ev.kind (codes "windowtitle")
    then record inner { clients = mark inner.clients }
    else if one_of (codes "workspace" ∷ codes "workspacev2" ∷ []) ev.kind
    then record inner {
      workspaces = mark inner.workspaces;
      active_workspace = mark inner.active_workspace;
      clients = mark inner.clients;
    }
    else if eq_text ev.kind (codes "focusedmon")
    then record inner {
      monitors = mark inner.monitors;
      active_workspace = mark inner.active_workspace;
      clients = mark inner.clients;
    }
    else if one_of (codes "changefloatingmode" ∷ codes "pin" ∷ []) ev.kind
    then record inner { clients = mark inner.clients }
    else if one_of (codes "monitoradded" ∷ codes "monitorremoved" ∷ codes "monitoraddedv2" ∷ [])
        ev.kind
    then record inner {
      monitors = mark inner.monitors;
      workspaces = mark inner.workspaces;
      clients = mark inner.clients;
    }
    else if eq_text ev.kind (codes "configreloaded")
    then record inner { binds = mark inner.binds; monitors = mark inner.monitors }
    else inner
