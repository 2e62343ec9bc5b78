-- ===== src/Input/Keys.antt =====
-- crates/hyprpilot-input/src/keys.rs: key combinations and mouse buttons, their parsers, and the
-- command lines of the backends. A `BTreeSet` of modifiers is its list in ascending order.
pub mod Sets
pub mod Chord
pub mod Spelling
pub mod RoundTrip
pub mod Sound
use hypr_pilot.Prelude.{
  ℕ, suc, ◌+◌, ◌-◌, Bool, ◌&&◌, Option, none, some, List, [], ◌∷◌, ◌++◌, map, reverse, any,
  get_elem?, find, Text, codes, eq_text, is_empty, lowercase, to_lower, trim, split, join, Result,
  ok, err, show_ℕ, ltb, leb, ◌==◌, if◌then◌else◌,
}
use hypr_pilot.Input.Error.{InputError, invalid_combo}
use hypr_pilot.Input.Keysyms.{is_one_of, keysym_to_evdev}

pub data Modifier : Type 0 where
  ctrl shift alt super : Modifier

-- `Modifier::parse`
unfoldable pub parse_modifier : Text → Option Modifier
unfolding is_one_of
parse_modifier s =
    let t = lowercase s in
    if is_one_of (codes "ctrl" ∷ codes "control" ∷ []) t
    then some ctrl
    else if is_one_of (codes "shift" ∷ []) t
    then some shift
    else if is_one_of (codes "alt" ∷ codes "meta" ∷ []) t
    then some alt
    else if is_one_of
        (codes "super"
          ∷ codes "win"
          ∷ codes "windows"
          ∷ codes "mod4"
          ∷ codes "cmd"
          ∷ codes "command"
          ∷ [])
        t
    then some super
    else none

unfoldable pub wtype_name : Modifier → Text
wtype_name ctrl = codes "ctrl"
wtype_name shift = codes "shift"
wtype_name alt = codes "alt"
wtype_name super = codes "logo"

unfoldable pub hyprctl_name : Modifier → Text
hyprctl_name ctrl = codes "CTRL"
hyprctl_name shift = codes "SHIFT"
hyprctl_name alt = codes "ALT"
hyprctl_name super = codes "SUPER"

unfoldable pub ydotool_keycode : Modifier → ℕ
ydotool_keycode ctrl = 29
ydotool_keycode shift = 42
ydotool_keycode alt = 56
ydotool_keycode super = 125

-- The declaration order, by which the derived `Ord` compares.
unfoldable pub rank : Modifier → ℕ
rank ctrl = 0
rank shift = 1
rank alt = 2
rank super = 3

abbrev pub ModifierSet : Type 0
ModifierSet = List Modifier

-- `modifiers.insert(m)`
unfoldable pub insert_modifier : Modifier → ModifierSet → ModifierSet
unfolding rank
insert_modifier m [] = m ∷ []
insert_modifier m (n ∷ ns) =
    if ltb (rank m) (rank n)
    then m ∷ n ∷ ns
    else if rank m == rank n
    then n ∷ ns
    else n ∷ insert_modifier m ns

pub record KeyCombo : Type 0 where
  pub modifiers : ModifierSet
  pub key : Text

-- `split_last` of the parts `p ∷ ps`: the last one, and those before it
unfoldable pub split_last : Text → List Text → Text × List Text
split_last p [] = (p, [])
split_last p (q ∷ qs) = let r = split_last q qs in (r.0, p ∷ r.1)

abbrev pub unknown_modifier : Text → Text → InputError
unknown_modifier m trimmed = invalid_combo (
    codes "`"
    ++ m
    ++ codes "` in `"
    ++ trimmed
    ++ codes "` is not a recognised modifier; expected ctrl, shift, alt, or super")

-- The loop over the parts before the key.
unfoldable pub read_modifiers : Text → List Text → ModifierSet → Result ModifierSet InputError
read_modifiers trimmed [] acc = ok acc
read_modifiers trimmed (m ∷ ms) acc = elim (parse_modifier m) [
  | none ↦ err (unknown_modifier m trimmed)
  | some p ↦ read_modifiers trimmed ms (insert_modifier p acc)
]

abbrev pub with_key : Text → Result ModifierSet InputError → Result KeyCombo InputError
with_key key (ok ms) = ok (record { modifiers = ms; key = key })
with_key key (err e) = err e

-- The trimmed parts. `split` gives one part at least, so the first case does not arise.
unfoldable pub read_parts : Text → List Text → Result KeyCombo InputError
unfolding split_last read_modifiers
read_parts trimmed [] = err (invalid_combo [])
read_parts trimmed (p ∷ ps) =
    let r = split_last p ps in with_key r.0 (read_modifiers trimmed r.1 [])

-- `KeyCombo::parse`
unfoldable pub parse : Text → Result KeyCombo InputError
unfolding read_parts
parse s =
    let trimmed = trim s in
    if is_empty trimmed
    then err (invalid_combo (codes "empty combo"))
    else let parts = map trim (split b'+' trimmed) in
      if any is_empty parts
      then err (
          invalid_combo (
            codes "`"
            ++ trimmed
            ++ codes "` has an empty token (consecutive or leading/trailing `+`)"))
      else read_parts trimmed parts

unfoldable pub wtype_modifiers : ModifierSet → List Text
unfolding wtype_name
wtype_modifiers [] = []
wtype_modifiers (m ∷ ms) = codes "-M" ∷ wtype_name m ∷ wtype_modifiers ms

unfoldable pub encode_wtype : KeyCombo → List Text
unfolding wtype_modifiers
encode_wtype c = wtype_modifiers c.modifiers ++ (codes "-k" ∷ c.key ∷ [])

unfoldable pub encode_hyprctl_mods : KeyCombo → Text
unfolding hyprctl_name
encode_hyprctl_mods c = join (codes " ") (map hyprctl_name c.modifiers)

abbrev pub press_token : ℕ → Text
press_token m = show_ℕ m ++ codes ":1"

abbrev pub release_token : ℕ → Text
release_token m = show_ℕ m ++ codes ":0"

-- The tokens for a key with its code.
unfoldable pub ydotool_tokens : KeyCombo → ℕ → List Text
unfolding ydotool_keycode
ydotool_tokens c key_code =
    let mods = map ydotool_keycode c.modifiers in
    map press_token mods
    ++ (press_token key_code ∷ release_token key_code ∷ map release_token (reverse mods))

unfoldable pub encode_ydotool_key : KeyCombo → Result (List Text) InputError
unfolding ydotool_tokens
encode_ydotool_key c = elim (keysym_to_evdev c.key) [
  | none ↦ err (
      invalid_combo (
        codes "key `"
        ++ c.key
        ++ codes "` has no known Linux input-event code for the ydotool backend"))
  | some key_code ↦ ok (ydotool_tokens c key_code)
]

unfoldable pub show_modifiers : ModifierSet → Text
unfolding wtype_name
show_modifiers [] = []
show_modifiers (m ∷ ms) = wtype_name m ++ (codes "+" ++ show_modifiers ms)

-- The `Display` of a combination.
unfoldable pub show : KeyCombo → Text
unfolding show_modifiers
show c = show_modifiers c.modifiers ++ c.key
