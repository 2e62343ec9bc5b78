-- ===== src/Core/Snapshot/Commands.antt =====
-- What Hyprland does with a window, and the actions of crates/hyprpilot-core/src/snapshot.rs there.
use hypr_pilot.Prelude.{
  ℤ, pos, negsuc, ◌≡◌, refl, ap, Bool, true, ◌++◌, not, Text, codes, ok, show_i32, starts_with,
  eq_text, trim,
}
use hypr_pilot.Core.WindowSelector
use hypr_pilot.Core.WorkspaceRef
use hypr_pilot.Core.Connection
use hypr_pilot.Core.Connection.{Send, dispatch}
use hypr_pilot.Core.Snapshot.{
  WindowSnapshot, RestoreAction, move_to_workspace, toggle_floating, reposition_floating,
  set_fullscreen, set_pin,
}
use hypr_pilot.Core.Snapshot.Apply.{outcome, apply_action}

-- The state of a window that the actions change.
pub record State : Type 0 where
  pub workspace : ℤ
  pub at : ℤ × ℤ
  pub size : ℤ × ℤ
  pub floating : Bool
  pub fullscreen : ℤ
  pub pinned : Bool

abbrev pub state : WindowSnapshot → State
state w = record {
  workspace = w.workspace_id;
  at = w.at;
  size = w.size;
  floating = w.floating;
  fullscreen = w.fullscreen;
  pinned = w.pinned;
}

-- Hyprland takes the command and the window is in state `t` then.
abbrev pub Takes : Send State → Text → State → State → Type 0
Takes send_raw command s t = send_raw (codes "dispatch " ++ command) s ≡ (ok (codes "ok"), t)

abbrev pub selected : Text → Text
selected address = codes "address:" ++ address

abbrev pub IsAbsolute : ℤ → Type 0
IsAbsolute (pos n) = Unit
IsAbsolute (negsuc n) = ⊥

-- What Hyprland documents of the commands that take the window at an address to the state in a
-- snapshot: each sets or toggles what it names. Only a window that floats is placed and pinned, and
-- of workspaces with a negative id, which name a relative move, nothing is said.
pub record Obeys (snap : WindowSnapshot) (address : Text) (send_raw : Send State) : Type 0 where
  pub moves :
      IsAbsolute snap.workspace_id
      → (s : State)
      → Takes send_raw
          (codes "movetoworkspacesilent "
            ++ show_i32 snap.workspace_id
            ++ codes ","
            ++ selected address)
          s
          (record s { workspace = snap.workspace_id })
  pub toggles :
      (s : State)
      → Takes send_raw
          (codes "togglefloating " ++ selected address)
          s
          (record s { floating = not s.floating })
  pub places :
      (s : State)
      → s.floating ≡ true
      → Takes send_raw
          (codes "movewindowpixel exact "
            ++ show_i32 snap.at.0
            ++ codes " "
            ++ show_i32 snap.at.1
            ++ codes ","
            ++ selected address)
          s
          (record s { at = snap.at })
  pub resizes :
      (s : State)
      → s.floating ≡ true
      → Takes send_raw
          (codes "resizewindowpixel exact "
            ++ show_i32 snap.size.0
            ++ codes " "
            ++ show_i32 snap.size.1
            ++ codes ","
            ++ selected address)
          s
          (record s { size = snap.size })
  pub screens :
      (s : State)
      → Takes send_raw
          (codes "fullscreenstate "
            ++ show_i32 snap.fullscreen
            ++ codes " "
            ++ codes "-1"
            ++ codes ","
            ++ selected address)
          s
          (record s { fullscreen = snap.fullscreen })
  pub pins :
      (s : State)
      → s.floating ≡ true
      → Takes send_raw (codes "pin " ++ selected address) s (record s { pinned = not s.pinned })

minus_one : show_i32 (negsuc 0) ≡ codes "-1"
unfolding show_i32
minus_one = refl

module _ (send_raw : Send State) (snap : WindowSnapshot) (a : Text) (h : Obeys snap a send_raw)
    (x : starts_with (codes "0x") a ≡ true) where
  -- The action succeeds and takes the window from `s` to `t`.
  abbrev pub Does : RestoreAction → State → State → Type 0
  Does action s t =
      ((apply_action send_raw action s).1 ≡ t)
      × ((apply_action send_raw action s).0.succeeded ≡ true)

  dispatch-Takes :
      (f : Text → Text) (s t : State)
      → Takes send_raw (f (codes "address:" ++ a)) s t
      → dispatch send_raw (f (WindowSelector.encode (WindowSelector.address a))) s ≡ (ok tt, t)
  unfolding dispatch Connection.read_reply WindowSelector.encode eq_text trim
  dispatch-Takes f s t e = rw (x, e) refl

  -- An action that sends one command.
  sent-Does :
      (action : RestoreAction) (f : Text → Text) (s t : State)
      → Takes send_raw (f (codes "address:" ++ a)) s t
      → let r = dispatch send_raw (f (WindowSelector.encode (WindowSelector.address a))) s in
        (r.1 ≡ t) × ((outcome action r.0).succeeded ≡ true)
  unfolding outcome
  sent-Does action f s t e =
      let d = dispatch-Takes f s t e in
      (ap (λ r. r.1) d, ap (λ r. (outcome action r.0).succeeded) d)

  pub move-Does :
      (from : ℤ) (s : State)
      → IsAbsolute snap.workspace_id
      → Does
          (move_to_workspace a from snap.workspace_id)
          s
          (record s { workspace = snap.workspace_id })
  unfolding apply_action WorkspaceRef.encode
  move-Does from s absolute =
      sent-Does (move_to_workspace a from snap.workspace_id)
        (λ sel. codes "movetoworkspacesilent " ++ show_i32 snap.workspace_id ++ codes "," ++ sel) s
        (record s { workspace = snap.workspace_id }) (h.moves absolute s)

  pub toggle-Does :
      (b : Bool) (s : State) → Does (toggle_floating a b) s (record s { floating = not s.floating })
  unfolding apply_action Connection.toggle_floating_window
  toggle-Does b s =
      sent-Does (toggle_floating a b) (λ sel. codes "togglefloating " ++ sel) s
        (record s { floating = not s.floating }) (h.toggles s)

  pub screen-Does :
      (from : ℤ) (s : State)
      → Does (set_fullscreen a from snap.fullscreen) s (record s { fullscreen = snap.fullscreen })
  unfolding apply_action Connection.set_fullscreen_state
  screen-Does from s =
      sent-Does (set_fullscreen a from snap.fullscreen)
        (λ sel.
          codes "fullscreenstate "
          ++ show_i32 snap.fullscreen
          ++ codes " "
          ++ show_i32 (negsuc 0)
          ++ codes ","
          ++ sel)
        s (record s { fullscreen = snap.fullscreen }) (rw minus_one (h.screens s))

  pub pin-Does :
      (b : Bool) (s : State)
      → s.floating ≡ true
      → Does (set_pin a b) s (record s { pinned = not s.pinned })
  unfolding apply_action Connection.pin_window
  pin-Does b s e =
      sent-Does (set_pin a b) (λ sel. codes "pin " ++ sel) s (record s { pinned = not s.pinned })
        (h.pins s e)

  pub place-Does :
      (cur_at cur_size : ℤ × ℤ) (s : State)
      → s.floating ≡ true
      → Does
          (reposition_floating a snap.at snap.size cur_at cur_size)
          s
          (record s { at = snap.at; size = snap.size })
  unfolding apply_action Connection.move_window_pixel Connection.resize_window_pixel outcome
  place-Does cur_at cur_size s e =
      let moved : State = record s { at = snap.at } in
      let pixels : Text → ℤ × ℤ → Text → Text =
        λ verb p sel. verb ++ show_i32 p.0 ++ codes " " ++ show_i32 p.1 ++ codes "," ++ sel in
      let m =
        dispatch-Takes (pixels (codes "movewindowpixel exact ") snap.at) s moved (h.places s e) in
      let r =
        dispatch-Takes (pixels (codes "resizewindowpixel exact ") snap.size) moved
          (record moved { size = snap.size }) (h.resizes moved e) in
      rw (m, r) (refl, refl)
