-- ===== src/Core/Snapshot/Replay.antt =====
-- Restoring a matched window takes it to the snapshot's state.
use hypr_pilot.Prelude.{◌≡◌, Bool, true, false, List, Text, codes, if◌then◌else◌, All, starts_with}
use hypr_pilot.Core.Connection.{Send}
use hypr_pilot.Core.Snapshot.{WindowSnapshot, RestoreAction}
use hypr_pilot.Core.Snapshot.Apply.{ApplyOutcome, apply_diff}
use hypr_pilot.Core.Snapshot.Commands
use hypr_pilot.Core.Snapshot.Commands.{State, Obeys}

-- The state that restoring aims at: place, size and pin only matter for a window that floats.
abbrev pub target : WindowSnapshot → State → State
target snap s = record {
  workspace = snap.workspace_id;
  at = if snap.floating then snap.at else s.at;
  size = if snap.floating then snap.size else s.size;
  floating = snap.floating;
  fullscreen = snap.fullscreen;
  pinned = if snap.floating then snap.pinned else s.pinned;
}

-- The actions all succeed and take the window from `s` to `t`.
abbrev pub Restores : Send State → List RestoreAction → State → State → Type 0
Restores send_raw actions s t =
    ((apply_diff send_raw actions s).1 ≡ t)
    × All (λ (o : ApplyOutcome). o.succeeded ≡ true) (apply_diff send_raw actions s).0

module _ (send_raw : Send State) (snap : WindowSnapshot) (a : Text) (h : Obeys snap a send_raw)
    (x : starts_with (codes "0x") a ≡ true) where
  -- One action under its condition.
  abbrev StepIf : Bool → RestoreAction → State → State → Type 0
  StepIf true action s t = Commands.Does send_raw snap a h x action s t
  StepIf false action s t = s ≡ t
