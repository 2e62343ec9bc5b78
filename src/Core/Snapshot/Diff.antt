-- ===== src/Core/Snapshot/Diff.antt =====
-- crates/hyprpilot-core/src/snapshot.rs, `diff_against` and `match_live_window`. The `BTreeSet` of
-- matched addresses is a list that is only asked for membership.
use hypr_pilot.Prelude.{
  ℤ, pos, negsuc, Bool, true, false, Option, none, some, List, [], ◌∷◌, ◌++◌, filter, find, any,
  ltb, eq_ℤ, same_bool, ◌&&◌, ◌||◌, not, if◌then◌else◌, Text, eq_text, is_text, is_empty, or_option,
}
use hypr_pilot.Core.Snapshot.{
  WindowSnapshot, Snapshot, RestoreAction, window_missing, move_to_workspace, toggle_floating,
  reposition_floating, set_fullscreen, set_pin, window_not_in_snapshot, restore_active_focus,
}

-- `matched_live.contains(address)`
unfoldable pub contains : List Text → Text → Bool
contains matched address = any (λ a. eq_text a address) matched

unfoldable pub unmatched : List Text → WindowSnapshot → Bool
unfolding contains
unmatched matched w = not (contains matched w.address)

abbrev pub is_positive : ℤ → Bool
is_positive (pos n) = ltb 0 n
is_positive (negsuc n) = false

-- The candidate, if there is exactly one.
abbrev pub only {ℓ} : {A : Type ℓ} → List A → Option A
only (x ∷ []) = some x
only _ = none

unfoldable pub match_address : WindowSnapshot → List WindowSnapshot → Option WindowSnapshot
match_address snap free = find (λ (w : WindowSnapshot). eq_text w.address snap.address) free

unfoldable pub match_pid : WindowSnapshot → List WindowSnapshot → Option WindowSnapshot
match_pid snap free =
    if is_positive snap.pid
    then only (filter (λ (w : WindowSnapshot). eq_ℤ w.pid snap.pid) free)
    else none

unfoldable pub match_identity : WindowSnapshot → List WindowSnapshot → Option WindowSnapshot
match_identity snap free =
    if not (is_empty snap.initial_class)
    then only (
        filter
          (λ (w : WindowSnapshot).
            eq_text w.initial_class snap.initial_class
            && eq_text w.initial_title snap.initial_title)
          free)
    else none

unfoldable pub match_live_window :
    WindowSnapshot → List WindowSnapshot → List Text → Option WindowSnapshot
unfolding unmatched match_address match_pid match_identity
match_live_window snap live matched =
    let free = filter (unmatched matched) live in
    or_option (match_address snap free) (or_option (match_pid snap free) (match_identity snap free))

abbrev pub eq_pair : ℤ × ℤ → ℤ × ℤ → Bool
eq_pair (a, b) (c, d) = eq_ℤ a c && eq_ℤ b d

-- `if c { actions.push(a) }`
abbrev pub push_if : Bool → RestoreAction → List RestoreAction
push_if true a = a ∷ []
push_if false a = []

-- What is pushed for a snapshot window and the live window it matches.
unfoldable pub window_actions : WindowSnapshot → WindowSnapshot → List RestoreAction
window_actions snap live_w =
    let moved = not (eq_ℤ live_w.workspace_id snap.workspace_id) in
    let floated = not (same_bool live_w.floating snap.floating) in
    let placed =
      snap.floating && (not (eq_pair live_w.at snap.at) || not (eq_pair live_w.size snap.size)) in
    let screened = not (eq_ℤ live_w.fullscreen snap.fullscreen) in
    let pinned = snap.floating && not (same_bool live_w.pinned snap.pinned) in
    let address = live_w.address in
    push_if moved (move_to_workspace address live_w.workspace_id snap.workspace_id)
    ++ (push_if floated (toggle_floating address snap.floating)
        ++ (push_if placed (reposition_floating address snap.at snap.size live_w.at live_w.size)
            ++ (push_if screened (set_fullscreen address live_w.fullscreen snap.fullscreen)
                ++ push_if pinned (set_pin address snap.pinned))))

-- The first loop: what it pushes, and the matched addresses at its end, newest first.
unfoldable pub diff_windows :
    List WindowSnapshot → List WindowSnapshot → List Text → List RestoreAction × List Text
unfolding match_live_window window_actions
diff_windows [] live matched = ([], matched)
diff_windows (snap ∷ snaps) live matched = elim (match_live_window snap live matched) [
  | none ↦
      let r = diff_windows snaps live matched in
      (window_missing snap.address snap.class snap.title ∷ r.0, r.1)
  | some live_w ↦
      let r = diff_windows snaps live (live_w.address ∷ matched) in
      (window_actions snap live_w ++ r.0, r.1)
]

-- The second loop.
unfoldable pub diff_extra : List Text → List WindowSnapshot → List RestoreAction
unfolding contains
diff_extra matched [] = []
diff_extra matched (w ∷ live) =
    push_if (not (contains matched w.address)) (window_not_in_snapshot w.address w.class)
    ++ diff_extra matched live

unfoldable pub diff_focus : Option Text → Snapshot → List RestoreAction
diff_focus none live = []
diff_focus (some target) live =
    push_if
      (not (is_text live.active_window_address target)
        && any (λ (w : WindowSnapshot). eq_text w.address target) live.windows)
      (restore_active_focus target live.active_window_address)

unfoldable pub diff_against : Snapshot → Snapshot → List RestoreAction
unfolding diff_windows diff_extra diff_focus
diff_against self live =
    let r = diff_windows self.windows live.windows [] in
    r.0 ++ diff_extra r.1 live.windows ++ diff_focus self.active_window_address live
