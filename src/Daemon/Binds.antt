-- ===== src/Daemon/Binds.antt =====
-- crates/hyprpilot-daemon/src/binds.rs: the keybind that a combination is bound to. A `BTreeSet` of
-- texts is a list that is compared by membership.
pub mod Chords
use hypr_pilot.Prelude.{
  Bool, true, false, not, ◌&&◌, ◌||◌, Option, none, some, List, ◌++◌, map, find, any, all, Text,
  codes, eq_text, lowercase, is_empty, if◌then◌else◌,
}
use hypr_pilot.Core.Types.{Bind}
use hypr_pilot.Input.Keys.{KeyCombo, hyprctl_name}

unfoldable pub combo_mod_set : KeyCombo → List Text
combo_mod_set combo = map hyprctl_name combo.modifiers

-- Equality of two sets of texts.
abbrev pub is_member : List Text → Text → Bool
is_member ts t = any (λ u. eq_text u t) ts

unfoldable pub same_set : List Text → List Text → Bool
same_set ss ts = all (is_member ts) ss && all (is_member ss) ts

-- Whether the bind is of the submap, of the default one if none is given.
unfoldable pub submap_ok : Bind → Option Text → Bool
submap_ok bind (some s) = eq_text bind.submap s
submap_ok bind none = is_empty bind.submap || eq_text bind.submap (codes "global")

unfoldable pub bind_matches : Bind → KeyCombo → Option Text → Bool
unfolding submap_ok same_set combo_mod_set
bind_matches bind combo submap =
    if bind.mouse
    then false
    else if not (submap_ok bind submap) || not (eq_text (lowercase bind.key) (lowercase combo.key))
    then false
    else same_set bind.mods (combo_mod_set combo)

unfoldable pub resolve : List Bind → KeyCombo → Option Text → Option Bind
unfolding bind_matches
resolve binds combo submap = find (λ b. bind_matches b combo submap) binds

unfoldable pub bind_action : Bind → Text
bind_action bind =
    if is_empty bind.arg then bind.dispatcher else bind.dispatcher ++ codes " " ++ bind.arg
