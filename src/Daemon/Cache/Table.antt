-- ===== src/Daemon/Cache/Table.antt =====
-- What each event does to what the cache serves, value by value.
use mathlib.Core.Path.{subst}
use hypr_pilot.Prelude.{
  ℕ, ◌-◌, ◌≡◌, refl, sym, inl, inr, Bool, true, false, Option, none, some, List, [], ◌∷◌, Text,
  codes, eq_text, eq_text_iff, if◌then◌else◌, arith, Bool-cases, ltb, Among, All, All-append, ◌++◌,
}
use hypr_pilot.Core.Events.{Event, field}
use hypr_pilot.Core.Types.{Client}
use hypr_pilot.Daemon.Cache.{
  get, fresh, max_age, Inner, patch_title, patch_value, apply_title, one_of, window_kinds,
  apply_event,
}
use hypr_pilot.Daemon.Cache.Invalidation.{
  client_kinds, workspace_kinds, active_workspace_kinds, monitor_kinds, bind_kinds,
}

abbrev focus_kinds : List Text
focus_kinds =
    codes "activewindow"
    ∷ codes "activewindowv2"
    ∷ codes "windowtitle"
    ∷ codes "workspace"
    ∷ codes "workspacev2"
    ∷ codes "focusedmon"
    ∷ []

abbrev other_kinds : List Text
other_kinds =
    codes "changefloatingmode"
    ∷ codes "pin"
    ∷ codes "monitoradded"
    ∷ codes "monitorremoved"
    ∷ codes "monitoraddedv2"
    ∷ []

abbrev all_kinds : List Text
all_kinds = codes "configreloaded" ∷ codes "windowtitlev2" ∷ client_kinds

abbrev pub title_event : Text → Bool
title_event kind = eq_text kind (codes "windowtitlev2")

-- The list with a new title, or nothing if the event lacks the address or the title.
abbrev pub retitled : Option Text → Option Text → Option (List Client) → Option (List Client)
retitled (some addr) (some title) (some list) = some (patch_title addr title list)
retitled _ _ _ = none

-- What is served at a time after an event.
pub record Follows (now : ℕ) (i : Inner) (ev : Event) : Type 0 where
  pub clients : get now (apply_event i ev).clients ≡ (
      if one_of client_kinds ev.kind
      then none
      else if title_event ev.kind
      then retitled (field ev (codes "address")) (field ev (codes "title")) (get now i.clients)
      else get now i.clients)
  pub workspaces :
      get now (apply_event i ev).workspaces
      ≡ (if one_of workspace_kinds ev.kind then none else get now i.workspaces)
  pub monitors :
      get now (apply_event i ev).monitors
      ≡ (if one_of monitor_kinds ev.kind then none else get now i.monitors)
  pub active_workspace :
      get now (apply_event i ev).active_workspace
      ≡ (if one_of active_workspace_kinds ev.kind then none else get now i.active_workspace)
  pub binds :
      get now (apply_event i ev).binds
      ≡ (if one_of bind_kinds ev.kind then none else get now i.binds)
  pub version : get now (apply_event i ev).version ≡ get now i.version

unknown-Follows :
    (now : ℕ) (i : Inner) (ev : Event) → one_of all_kinds ev.kind ≡ false → Follows now i ev
unfolding apply_event
unknown-Follows now i ev n = record {
  clients = ground arith;
  workspaces = ground arith;
  monitors = ground arith;
  active_workspace = ground arith;
  binds = ground arith;
  version = ground arith;
}

known-Among : (k : Text) (ks : List Text) → one_of ks k ≡ true → Among k ks
known-Among k [] h = absurd (ground arith)
known-Among k (x ∷ ks) h = elim (Bool-cases (eq_text k x)) [
  | inl e ↦ inl (sym ((eq_text_iff k x).0 e))
  | inr n ↦ inr (known-Among k ks (ground arith))
]

at-kind : (P : Text → Type 0) (k : Text) (ks : List Text) → All P ks → Among k ks → P k
at-kind P k [] h m = absurd m
at-kind P k (x ∷ ks) h (inl e) = subst P e h.0
at-kind P k (x ∷ ks) h (inr m) = at-kind P k ks h.1 m

module _ (now : ℕ) where
  served_title :
      (addr title : Text) (dirty : Bool) (v : Option (List Client)) (at : Option ℕ)
      → (if dirty then none else fresh now (patch_value addr title v) at)
        ≡ retitled (some addr) (some title) (if dirty then none else fresh now v at)
  unfolding patch_value
  served_title addr title true v at = refl
  served_title addr title false none at = refl
  served_title addr title false (some list) none = refl
  served_title addr title false (some list) (some at) = elim (Bool-cases (ltb (now - at) max_age)) [
    | inl e ↦ rw e refl
    | inr e ↦ rw e refl
  ]

  -- What the arm of a title leaves to serve.
  record Titled (i : Inner) (addr title : Option Text) : Type 0 where
    clients : get now (apply_title addr title i).clients ≡ retitled addr title (get now i.clients)
    workspaces : get now (apply_title addr title i).workspaces ≡ get now i.workspaces
    monitors : get now (apply_title addr title i).monitors ≡ get now i.monitors
    active_workspace :
        get now (apply_title addr title i).active_workspace ≡ get now i.active_workspace
    binds : get now (apply_title addr title i).binds ≡ get now i.binds
    version : get now (apply_title addr title i).version ≡ get now i.version

  apply_title-Titled : (i : Inner) (addr title : Option Text) → Titled i addr title
  unfolding apply_title get
  apply_title-Titled i (some addr) (some title) = record {
    clients = served_title addr title i.clients.dirty i.clients.value i.clients.refreshed_at;
    workspaces = refl;
    monitors = refl;
    active_workspace = refl;
    binds = refl;
    version = refl;
  }
  apply_title-Titled i _ _ = record {
    clients = refl;
    workspaces = refl;
    monitors = refl;
    active_workspace = refl;
    binds = refl;
    version = refl;
  }

  -- An event of a kind by name.
  abbrev As : Inner → Event → Text → Type 0
  As i ev kind = Follows now i (record ev { kind = kind })

  title-Follows : (i : Inner) (ev : Event) → As i ev (codes "windowtitlev2")
  unfolding apply_event eq_text
  title-Follows i ev =
      let ev' : Event = record ev { kind = codes "windowtitlev2" } in
      let t = apply_title-Titled i (field ev' (codes "address")) (field ev' (codes "title")) in
      record {
        clients = t.clients;
        workspaces = t.workspaces;
        monitors = t.monitors;
        active_workspace = t.active_workspace;
        binds = t.binds;
        version = t.version;
      }

  follows :
      {i : Inner} {ev : Event}
      → (get now (apply_event i ev).clients
          ≡ (if one_of client_kinds ev.kind then none else get now i.clients))
      → (get now (apply_event i ev).workspaces
          ≡ (if one_of workspace_kinds ev.kind then none else get now i.workspaces))
      → (get now (apply_event i ev).monitors
          ≡ (if one_of monitor_kinds ev.kind then none else get now i.monitors))
      → (get now (apply_event i ev).active_workspace
          ≡ (if one_of active_workspace_kinds ev.kind then none else get now i.active_workspace))
      → (get now (apply_event i ev).binds
          ≡ (if one_of bind_kinds ev.kind then none else get now i.binds))
      → (get now (apply_event i ev).version ≡ get now i.version)
      → title_event ev.kind ≡ false
      → Follows now i ev
  follows c w m a b v n = record {
    clients = rw n c;
    workspaces = w;
    monitors = m;
    active_workspace = a;
    binds = b;
    version = v;
  }

  -- The client kinds, in three groups.
  known_windows : (i : Inner) (ev : Event) → All (As i ev) window_kinds
  unfolding apply_event eq_text get
  known_windows i ev = (
    follows refl refl refl refl refl refl refl,
    (
      follows refl refl refl refl refl refl refl,
      (
        follows refl refl refl refl refl refl refl,
        (
          follows refl refl refl refl refl refl refl,
          (follows refl refl refl refl refl refl refl, tt),
        ),
      ),
    ),
  )

  known_focus : (i : Inner) (ev : Event) → All (As i ev) focus_kinds
  unfolding apply_event eq_text get
  known_focus i ev = (
    follows refl refl refl refl refl refl refl,
    (
      follows refl refl refl refl refl refl refl,
      (
        follows refl refl refl refl refl refl refl,
        (
          follows refl refl refl refl refl refl refl,
          (
            follows refl refl refl refl refl refl refl,
            (follows refl refl refl refl refl refl refl, tt),
          ),
        ),
      ),
    ),
  )

  known_monitors : (i : Inner) (ev : Event) → All (As i ev) other_kinds
  unfolding apply_event eq_text get
  known_monitors i ev = (
    follows refl refl refl refl refl refl refl,
    (
      follows refl refl refl refl refl refl refl,
      (
        follows refl refl refl refl refl refl refl,
        (
          follows refl refl refl refl refl refl refl,
          (follows refl refl refl refl refl refl refl, tt),
        ),
      ),
    ),
  )

  known-Follows : (i : Inner) (ev : Event) → All (As i ev) all_kinds
  unfolding apply_event eq_text get
  known-Follows i ev =
      let clients =
        All-append (As i ev) window_kinds (focus_kinds ++ other_kinds) (known_windows i ev)
          (All-append (As i ev) focus_kinds other_kinds (known_focus i ev) (known_monitors i ev)) in
      (follows refl refl refl refl refl refl refl, (title-Follows i ev, clients))

  -- After an event a read of each of the six cached values gets nothing if the event is of a kind
  -- in the list for that value, and otherwise what it got before, at any time; only
  -- `windowtitlev2` sets its title for the window of its address in the list of windows, and
  -- leaves no list when it lacks either. The version outlives every event.
  pub apply_event-Follows : (i : Inner) (ev : Event) → Follows now i ev
  apply_event-Follows i ev = elim (Bool-cases (one_of all_kinds ev.kind)) [
    | inl k ↦
        at-kind (As i ev) ev.kind all_kinds (known-Follows i ev) (known-Among ev.kind all_kinds k)
    | inr n ↦ unknown-Follows now i ev n
  ]
