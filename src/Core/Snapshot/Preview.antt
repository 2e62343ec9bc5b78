-- ===== src/Core/Snapshot/Preview.antt =====
-- crates/hyprpilot-core/src/snapshot.rs, `SnapshotRestorePreview`, `render_human_summary` and
-- `join_with_and`.
pub mod Counts
use hypr_pilot.Prelude.{
  ℕ, ℤ, suc, ◌+◌, ◌<◌, ◌≡◌, refl, ap, ◌↔◌, Bool, true, false, List, [], ◌∷◌, ◌++◌, not, Text, codes,
  ltb, ◌==◌, if◌then◌else◌, show_ℕ, join, filter, length, arith, starts_with,
}
use hypr_pilot.Core.Snapshot.{
  Snapshot, RestoreAction, window_missing, move_to_workspace, toggle_floating, reposition_floating,
  set_fullscreen, set_pin, window_not_in_snapshot, restore_active_focus, is_mutating, is_no_op,
  mutation_count,
}

pub record PreviewSummary : Type 0 where
  pub total_actions : ℕ
  pub mutating_actions : ℕ
  pub moves : ℕ
  pub toggles : ℕ
  pub repositions : ℕ
  pub fullscreens : ℕ
  pub pins : ℕ
  pub refocuses : ℕ
  pub windows_missing : ℕ
  pub windows_extra : ℕ

abbrev pub default_summary : PreviewSummary
default_summary = record {
  total_actions = 0;
  mutating_actions = 0;
  moves = 0;
  toggles = 0;
  repositions = 0;
  fullscreens = 0;
  pins = 0;
  refocuses = 0;
  windows_missing = 0;
  windows_extra = 0;
}

-- The match of the loop's body.
abbrev pub count_kind : RestoreAction → PreviewSummary → PreviewSummary
count_kind (move_to_workspace a from to) s = record s { moves = s.moves + 1 }
count_kind (toggle_floating a t) s = record s { toggles = s.toggles + 1 }
count_kind (reposition_floating a t ts c cs) s = record s { repositions = s.repositions + 1 }
count_kind (set_fullscreen a from to) s = record s { fullscreens = s.fullscreens + 1 }
count_kind (set_pin a t) s = record s { pins = s.pins + 1 }
count_kind (restore_active_focus a from) s = record s { refocuses = s.refocuses + 1 }
count_kind (window_missing a c t) s = record s { windows_missing = s.windows_missing + 1 }
count_kind (window_not_in_snapshot a c) s = record s { windows_extra = s.windows_extra + 1 }

pub record Tally : Type 0 where
  pub summary : PreviewSummary
  pub will_apply : List RestoreAction
  pub will_skip : List RestoreAction

unfoldable pub tally_action : RestoreAction → Tally → Tally
tally_action a t =
    let s = t.summary in
    let counted = count_kind a (record s { total_actions = s.total_actions + 1 }) in
    if is_mutating a
    then record {
      summary = record counted { mutating_actions = counted.mutating_actions + 1 };
      will_apply = t.will_apply ++ (a ∷ []);
      will_skip = t.will_skip;
    }
    else record {
      summary = counted;
      will_apply = t.will_apply;
      will_skip = t.will_skip ++ (a ∷ []);
    }

-- The loop over the diff's actions.
unfoldable pub tally : List RestoreAction → Tally → Tally
unfolding tally_action
tally [] t = t
tally (a ∷ actions) t = tally actions (tally_action a t)

-- `win`
unfoldable pub win : ℕ → Text
win n = show_ℕ n ++ codes " window" ++ (if n == 1 then codes "" else codes "s")

-- `if n > 0 { parts.push(…) }`
abbrev pub part : ℕ → Text → List Text
part n text = if ltb 0 n then text ∷ [] else []

-- `parts[..parts.len() - 1]` joined by commas, and the last part
unfoldable pub join_many : Text → List Text → Text
join_many x [] = codes ", and " ++ x
join_many x (y ∷ []) = x ++ codes ", and " ++ y
join_many x (y ∷ z ∷ rest) = x ++ codes ", " ++ join_many y (z ∷ rest)

unfoldable pub join_with_and : List Text → Text
unfolding join_many
join_with_and [] = []
join_with_and (x ∷ []) = x
join_with_and (x ∷ y ∷ []) = x ++ codes " and " ++ y
join_with_and (x ∷ y ∷ z ∷ rest) = join_many x (y ∷ z ∷ rest)

unfoldable pub parts : PreviewSummary → List Text
unfolding win
parts s =
    part s.moves (codes "move " ++ win s.moves)
    ++ (part s.toggles (codes "toggle floating on " ++ win s.toggles)
        ++ (part s.repositions (codes "reposition " ++ win s.repositions)
            ++ (part s.fullscreens (codes "change fullscreen on " ++ win s.fullscreens)
                ++ (part s.pins (codes "toggle pin on " ++ win s.pins)
                    ++ part s.refocuses (codes "refocus the snapshot's active window")))))

abbrev pub to_be : ℕ → Text
to_be n = if n == 1 then codes "is" else codes "are"

unfoldable pub changes_text : List Text → Text
unfolding join_with_and
changes_text [] = codes "No changes — current state already matches the snapshot."
changes_text (x ∷ xs) = codes "Would " ++ join_with_and (x ∷ xs) ++ codes "."

abbrev pub missing_text : ℕ → Text
missing_text n =
    codes " "
    ++ win n
    ++ codes " in the snapshot "
    ++ to_be n
    ++ codes " not currently running and will be skipped."

abbrev pub extra_text : ℕ → Text
extra_text n =
    codes " "
    ++ win n
    ++ codes " open now "
    ++ to_be n
    ++ codes " not in the snapshot and will be left alone."

unfoldable pub render_human_summary : PreviewSummary → Text
unfolding parts changes_text win
render_human_summary s =
    changes_text (parts s)
    ++ ((if ltb 0 s.windows_missing then missing_text s.windows_missing else [])
        ++ (if ltb 0 s.windows_extra then extra_text s.windows_extra else []))

pub record SnapshotRestorePreview : Type 0 where
  pub snapshot_name : Text
  pub snapshot_created_at_unix : ℤ
  pub diff : List RestoreAction
  pub summary : PreviewSummary
  pub will_apply : List RestoreAction
  pub will_skip : List RestoreAction
  pub human_summary : Text

unfoldable pub from_snapshot_and_diff : Snapshot → List RestoreAction → SnapshotRestorePreview
unfolding tally render_human_summary
from_snapshot_and_diff snap diff =
    let t = tally diff (record { summary = default_summary; will_apply = []; will_skip = [] }) in
    record {
      snapshot_name = snap.name;
      snapshot_created_at_unix = snap.created_at_unix;
      diff = diff;
      summary = t.summary;
      will_apply = t.will_apply;
      will_skip = t.will_skip;
      human_summary = render_human_summary t.summary;
    }
