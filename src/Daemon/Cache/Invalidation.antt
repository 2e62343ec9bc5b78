-- ===== src/Daemon/Cache/Invalidation.antt =====
-- After which events of crates/hyprpilot-daemon/src/cache.rs each value is asked again.
use mathlib.Core.Path.{subst}
use hypr_pilot.Prelude.{
  eq_text_iff, ℕ, ◌≡◌, refl, sym, ◌∙◌, inl, inr, Bool, true, false, none, List, [], ◌∷◌, Text,
  codes, eq_text, arith, Bool-cases,
}
use hypr_pilot.Core.Events.{Event}
use hypr_pilot.Daemon.Cache.{get, Inner, one_of, apply_event}

-- The kinds after which the list of windows is asked again.
abbrev pub client_kinds : List Text
client_kinds =
    codes "openwindow"
    ∷ codes "closewindow"
    ∷ codes "fullscreen"
    ∷ codes "movewindow"
    ∷ codes "movewindowv2"
    ∷ codes "activewindow"
    ∷ codes "activewindowv2"
    ∷ codes "windowtitle"
    ∷ codes "workspace"
    ∷ codes "workspacev2"
    ∷ codes "focusedmon"
    ∷ codes "changefloatingmode"
    ∷ codes "pin"
    ∷ codes "monitoradded"
    ∷ codes "monitorremoved"
    ∷ codes "monitoraddedv2"
    ∷ []

-- The kinds after which the workspaces are asked again.
abbrev pub workspace_kinds : List Text
workspace_kinds =
    codes "openwindow"
    ∷ codes "closewindow"
    ∷ codes "fullscreen"
    ∷ codes "movewindow"
    ∷ codes "movewindowv2"
    ∷ codes "workspace"
    ∷ codes "workspacev2"
    ∷ codes "monitoradded"
    ∷ codes "monitorremoved"
    ∷ codes "monitoraddedv2"
    ∷ []

abbrev pub active_workspace_kinds : List Text
active_workspace_kinds =
    codes "openwindow"
    ∷ codes "closewindow"
    ∷ codes "fullscreen"
    ∷ codes "movewindow"
    ∷ codes "movewindowv2"
    ∷ codes "workspace"
    ∷ codes "workspacev2"
    ∷ codes "focusedmon"
    ∷ []

abbrev pub monitor_kinds : List Text
monitor_kinds =
    codes "focusedmon"
    ∷ codes "monitoradded"
    ∷ codes "monitorremoved"
    ∷ codes "monitoraddedv2"
    ∷ codes "configreloaded"
    ∷ []

abbrev pub bind_kinds : List Text
bind_kinds = codes "configreloaded" ∷ []

marks-clients :
    (i : Inner) (ev : Event)
    → one_of client_kinds ev.kind ≡ true
    → eq_text ev.kind (codes "windowtitlev2") ≡ false
    → (apply_event i ev).clients.dirty ≡ true
unfolding apply_event
marks-clients i ev h n = ground arith

title_kind : (k : Text) → eq_text k (codes "windowtitlev2") ≡ true → one_of client_kinds k ≡ false
title_kind k h =
    let e : codes "windowtitlev2" ≡ k = sym ((eq_text_iff k (codes "windowtitlev2")).0 h) in
    subst (λ x. one_of client_kinds x ≡ false) e (unfold eq_text in refl)

-- After an event of one of the sixteen kinds that change the windows other than by a title in
-- place, no read returns the list of windows from the cache.
pub get-client_kinds :
    (now : ℕ) (i : Inner) (ev : Event)
    → one_of client_kinds ev.kind ≡ true
    → get now (apply_event i ev).clients ≡ none
unfolding get
get-client_kinds now i ev h = elim (Bool-cases (eq_text ev.kind (codes "windowtitlev2"))) [
  | inl t ↦ absurd (true-not-false (sym h ∙ title_kind ev.kind t))
  | inr n ↦ rw (marks-clients i ev h n) refl
]
  where
    true-not-false : ◌≡◌ {A = Bool} true false → ⊥
    true-not-false e = ground arith
