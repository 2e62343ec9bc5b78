-- ===== src/Core/Snapshot/Apply.antt =====
-- crates/hyprpilot-core/src/snapshot.rs, `apply_diff` and `ApplyOutcome`.
use hypr_pilot.Prelude.{
  negsuc, ◌≡◌, refl, ap, sym, ◌∙◌, Bool, true, false, Option, none, some, List, [], ◌∷◌, ◌++◌, map,
  not, Text, codes, Result, ok, err, All, arith,
}
use hypr_pilot.Core.Error.{Error, to_string}
use hypr_pilot.Core.WindowSelector
use hypr_pilot.Core.WindowSelector.{WindowSelector}
use hypr_pilot.Core.WorkspaceRef
use hypr_pilot.Core.Connection
use hypr_pilot.Core.Connection.{Io, Send, dispatch}
use hypr_pilot.Core.Snapshot.{
  RestoreAction, window_missing, move_to_workspace, toggle_floating, reposition_floating,
  set_fullscreen, set_pin, window_not_in_snapshot, restore_active_focus, is_mutating, is_no_op,
  mutation_count,
}

pub record ApplyOutcome : Type 0 where
  pub action : RestoreAction
  -- `ok` in the source
  pub succeeded : Bool
  pub skipped : Bool
  pub error : Option Text

-- `ApplyOutcome::from`
unfoldable pub outcome : RestoreAction → Result Unit Error → ApplyOutcome
outcome action (ok u) = record { action = action; succeeded = true; skipped = false; error = none }
outcome action (err e) = record {
  action = action;
  succeeded = false;
  skipped = false;
  error = some (to_string e);
}

abbrev skip : RestoreAction → ApplyOutcome
skip action = record { action = action; succeeded = true; skipped = true; error = none }

-- The action of an outcome and whether it was skipped.
abbrev pub kind : ApplyOutcome → RestoreAction × Bool
kind o = (o.action, o.skipped)

abbrev pub planned : RestoreAction → RestoreAction × Bool
planned a = (a, not (is_mutating a))

module _ {W : Type 0} (send_raw : Send W) where
  abbrev attempt : RestoreAction → Io W Unit → W → ApplyOutcome × W
  attempt action request w = let r = request w in (outcome action r.0, r.1)

  abbrev by_address : Text → WindowSelector
  by_address address = WindowSelector.address address

  -- A failed move ends the action; otherwise the window is resized.
  abbrev after_move : RestoreAction → Result Unit Error → Io W Unit → W → ApplyOutcome × W
  after_move action (err e) resize w = (
    record {
      action = action;
      succeeded = false;
      skipped = false;
      error = some (codes "move: " ++ to_string e);
    },
    w,
  )
  after_move action (ok u) resize w = attempt action resize w

  -- The body of the loop.
  unfoldable pub apply_action : RestoreAction → W → ApplyOutcome × W
  unfolding outcome
  apply_action (move_to_workspace address from to) w =
      attempt (move_to_workspace address from to)
        (dispatch send_raw (
          codes "movetoworkspacesilent "
          ++ WorkspaceRef.encode (WorkspaceRef.id to)
          ++ codes ","
          ++ WindowSelector.encode (by_address address)))
        w
  apply_action (toggle_floating address target) w =
      attempt (toggle_floating address target)
        (Connection.toggle_floating_window send_raw (by_address address)) w
  apply_action (reposition_floating address at size cur_at cur_size) w =
      let moved = Connection.move_window_pixel send_raw (by_address address) at.0 at.1 w in
      after_move (reposition_floating address at size cur_at cur_size) moved.0
        (Connection.resize_window_pixel send_raw (by_address address) size.0 size.1) moved.1
  apply_action (set_fullscreen address from to) w =
      attempt (set_fullscreen address from to)
        (Connection.set_fullscreen_state send_raw (by_address address) to (negsuc 0)) w
  apply_action (set_pin address target) w =
      attempt (set_pin address target) (Connection.pin_window send_raw (by_address address)) w
  apply_action (restore_active_focus address from) w =
      attempt (restore_active_focus address from)
        (Connection.focus_window send_raw (by_address address)) w
  apply_action action w = (skip action, w)

  unfoldable pub apply_diff : List RestoreAction → W → List ApplyOutcome × W
  unfolding apply_action
  apply_diff [] w = ([], w)
  apply_diff (action ∷ actions) w =
      let r = apply_action action w in let rest = apply_diff actions r.1 in (r.0 ∷ rest.0, rest.1)

  -- What an outcome says of its action.
  pub record Reports (a : RestoreAction) (w : W) (r : ApplyOutcome × W) : Type 0 where
    pub same_action : r.0.action ≡ a
    pub skips : r.0.skipped ≡ not (is_mutating a)
    pub skipped_ok : is_mutating a ≡ false → (r.0.succeeded ≡ true) × (r.1 ≡ w)

  outcome-action : (a : RestoreAction) (r : Result Unit Error) → (outcome a r).action ≡ a
  unfolding outcome
  outcome-action a (ok u) = refl
  outcome-action a (err e) = refl

  outcome-skipped : (a : RestoreAction) (r : Result Unit Error) → (outcome a r).skipped ≡ false
  unfolding outcome
  outcome-skipped a (ok u) = refl
  outcome-skipped a (err e) = refl

  attempt-Reports :
      (a : RestoreAction) (w : W) (r : Result Unit Error) (w' : W)
      → is_mutating a ≡ true
      → Reports a w (outcome a r, w')
  attempt-Reports a w r w' m = record {
    same_action = outcome-action a r;
    skips = outcome-skipped a r ∙ ap not (sym m);
    skipped_ok = λ h. absurd (ground arith);
  }

  after_move-Reports :
      (a : RestoreAction) (w : W) (r : Result Unit Error) (resize : Io W Unit) (w' : W)
      → is_mutating a ≡ true
      → Reports a w (after_move a r resize w')
  after_move-Reports a w (err e) resize w' m = record {
    same_action = refl;
    skips = ap not (sym m);
    skipped_ok = λ h. absurd (ground arith);
  }
  after_move-Reports a w (ok u) resize w' m = attempt-Reports a w (resize w').0 (resize w').1 m

  apply_action-Reports : (a : RestoreAction) (w : W) → Reports a w (apply_action a w)
  unfolding apply_action is_mutating
  apply_action-Reports (reposition_floating address at size cur_at cur_size) w =
      after_move-Reports _ w _
        (Connection.resize_window_pixel send_raw (by_address address) size.0 size.1) _ refl
  apply_action-Reports (move_to_workspace address from to) w = attempt-Reports _ w _ _ refl
  apply_action-Reports (toggle_floating address target) w = attempt-Reports _ w _ _ refl
  apply_action-Reports (set_fullscreen address from to) w = attempt-Reports _ w _ _ refl
  apply_action-Reports (set_pin address target) w = attempt-Reports _ w _ _ refl
  apply_action-Reports (restore_active_focus address from) w = attempt-Reports _ w _ _ refl
  apply_action-Reports (window_missing address class title) w = record {
    same_action = refl;
    skips = refl;
    skipped_ok = λ h. (refl, refl);
  }
  apply_action-Reports (window_not_in_snapshot address class) w = record {
    same_action = refl;
    skips = refl;
    skipped_ok = λ h. (refl, refl);
  }

  -- There is one outcome for each action of a diff, in order, whatever fails on the way, and it is
  -- marked as skipped exactly when the action is not a mutation.
  pub apply_diff-actions :
      (actions : List RestoreAction) (w : W)
      → map kind (apply_diff actions w).0 ≡ map planned actions
  unfolding apply_diff
  apply_diff-actions [] w = refl
  apply_diff-actions (a ∷ actions) w =
      let r = apply_action-Reports a w in
      let rest = apply_diff-actions actions (apply_action a w).1 in
      λ i. (r.same_action i, r.skips i) ∷ rest i

  no_op-head :
      (a : RestoreAction) (actions : List RestoreAction)
      → is_no_op (a ∷ actions) ≡ true
      → is_mutating a ≡ false
  unfolding is_no_op mutation_count
  no_op-head a actions h = ground arith

  no_op-tail :
      (a : RestoreAction) (actions : List RestoreAction)
      → is_no_op (a ∷ actions) ≡ true
      → is_no_op actions ≡ true
  unfolding is_no_op mutation_count
  no_op-tail a actions h = ground arith

  -- A diff with no mutating action sends nothing to Hyprland, and all its outcomes are good.
  pub apply_diff-no_op :
      (actions : List RestoreAction) (w : W)
      → is_no_op actions ≡ true
      → ((apply_diff actions w).1 ≡ w)
        × All (λ (o : ApplyOutcome). o.succeeded ≡ true) (apply_diff actions w).0
  unfolding apply_diff is_no_op mutation_count
  apply_diff-no_op [] w h = (refl, tt)
  apply_diff-no_op (a ∷ actions) w h =
      let m : is_mutating a ≡ false = no_op-head a actions h in
      let r = (apply_action-Reports a w).skipped_ok m in
      let rest = apply_diff-no_op actions (apply_action a w).1 (no_op-tail a actions h) in
      (rest.0 ∙ r.1, (r.0, rest.1))
