-- ===== src/Tests/Input.antt =====
-- crates/hyprpilot-input, crates/hyprpilot-vision, and crates/hyprpilot-daemon/src/binds.rs: the
-- theorems at concrete inputs.
use hypr_pilot.Prelude.{
  ℕ, pos, ◌≡◌, ◌↔◌, refl, true, false, none, some, List, [], ◌∷◌, map, Text, codes, eq_text, ok,
  is_whitespace, trim_start, trim_end, ◌==◌, trim, split, lowercase, show_ℕ, Lacks-of_all,
}
use hypr_pilot.Core.Types.{Bind, decode_mods}
use hypr_pilot.Input.Keysyms.{keysym_to_evdev}
use hypr_pilot.Input.Keys.{
  Modifier, ctrl, shift, super, ModifierSet, KeyCombo, parse, show, parse_modifier, insert_modifier,
  encode_ydotool_key, ydotool_keycode,
}
use hypr_pilot.Input.Keys.Sets.{Sorted, holds}
use hypr_pilot.Input.Keys.Spelling.{IsToken, Spells, is_control, is_win, spelled, parse-spelled}
use hypr_pilot.Input.Keys.RoundTrip.{parse-show_read}
use hypr_pilot.Input.Keys.Chord.{Nested, encode_ydotool_key-Nested}
use hypr_pilot.Daemon.Binds.{bind_matches}
use hypr_pilot.Daemon.Binds.Chords.{Fires, bind_matches-Fires}
use hypr_pilot.Vision.Geometry.{Region}
use hypr_pilot.Vision.TextSearch.{Word, TextMatch}

control-IsToken : IsToken (codes "Control")
unfolding trim_start trim_end is_whitespace
control-IsToken = record {
  trimmed = record { nonempty = cc; left = refl; right = refl };
  lacks = Lacks-of_all (λ c. c == 43) (codes "Control") refl;
}

win-IsToken : IsToken (codes "win")
unfolding trim_start trim_end is_whitespace
win-IsToken = record {
  trimmed = record { nonempty = cc; left = refl; right = refl };
  lacks = Lacks-of_all (λ c. c == 43) (codes "win") refl;
}

c-IsToken : IsToken (codes "c")
unfolding trim_start trim_end is_whitespace
c-IsToken = record {
  trimmed = record { nonempty = cc; left = refl; right = refl };
  lacks = Lacks-of_all (λ c. c == 43) (codes "c") refl;
}

abbrev aliases : List Text
aliases = codes "Control" ∷ codes "win" ∷ []

abbrev named : List Modifier
named = ctrl ∷ super ∷ []

aliases-Spells : Spells aliases named
unfolding lowercase
aliases-Spells = (control-IsToken, is_control, (win-IsToken, is_win, tt))

parse-spelled_example :
    (set : ModifierSet) × (parse (spelled aliases (codes "c"))
      ≡ ok (record { modifiers = set; key = codes "c" }))
    × Sorted set
    × ((m : Modifier) → holds m set ≡ holds m named)
parse-spelled_example = parse-spelled aliases named (codes "c") aliases-Spells c-IsToken

abbrev copy : KeyCombo
copy = record { modifiers = ctrl ∷ []; key = codes "c" }

read_copy : parse (codes "ctrl + c") ≡ ok copy
unfolding parse trim split parse_modifier eq_text lowercase insert_modifier
read_copy = refl

parse-show_read_example : parse (show copy) ≡ ok copy
parse-show_read_example = parse-show_read (codes "ctrl + c") copy read_copy (unfold holds in refl)

abbrev argv : List Text
argv = codes "29:1" ∷ codes "46:1" ∷ codes "46:0" ∷ codes "29:0" ∷ []

encode_ydotool_key-Nested_example :
    (key : ℕ) × (keysym_to_evdev (codes "c") ≡ some key)
    × Nested (map ydotool_keycode (ctrl ∷ [])) key argv
encode_ydotool_key-Nested_example =
    encode_ydotool_key-Nested copy argv (unfold encode_ydotool_key keysym_to_evdev show_ℕ in refl)

-- Super and Shift held, Num Lock on.
abbrev bound : Bind
bound = record {
  mods = decode_mods 81;
  modmask = 81;
  key = codes "L";
  keycode = pos 0;
  submap = [];
  dispatcher = codes "exec";
  arg = codes "lock";
  description = [];
  locked = false;
  mouse = false;
  release = false;
  repeat = false;
}

abbrev chord : KeyCombo
chord = record { modifiers = shift ∷ super ∷ []; key = codes "l" }

bind_matches-Fires_example : (bind_matches bound chord none ≡ true) ↔ Fires bound chord none
bind_matches-Fires_example = bind_matches-Fires bound chord none refl

abbrev save : Word
save = record {
  text = codes "Save";
  bbox = record { x = pos 10; y = pos 20; w = pos 40; h = pos 12 };
  confidence = pos 90;
}

abbrev as_ : Word
as_ = record {
  text = codes "as";
  bbox = record { x = pos 54; y = pos 21; w = pos 20; h = pos 12 };
  confidence = pos 80;
}

abbrev found : TextMatch
found = record {
  text = codes "Save as";
  bbox = record { x = pos 10; y = pos 20; w = pos 64; h = pos 13 };
  confidence = pos 80;
}

abbrev shown_region : Region
shown_region = record { x = pos 100; y = pos 0; w = 300; h = 200 }
