-- ===== src/Input/Buttons.antt =====
-- crates/hyprpilot-input/src/keys.rs, `MouseButton`.
use hypr_pilot.Prelude.{[], ◌∷◌, Text, codes, lowercase, Result, ok, err, if◌then◌else◌}
use hypr_pilot.Input.Error.{InputError, invalid_button}
use hypr_pilot.Input.Keysyms.{is_one_of}

pub data MouseButton : Type 0 where
  left right middle x1 x2 : MouseButton

-- `MouseButton::parse`
unfoldable pub parse_button : Text → Result MouseButton InputError
unfolding is_one_of
parse_button s =
    let t = lowercase s in
    if is_one_of (codes "left" ∷ codes "l" ∷ codes "1" ∷ []) t
    then ok left
    else if is_one_of (codes "right" ∷ codes "r" ∷ codes "2" ∷ []) t
    then ok right
    else if is_one_of (codes "middle" ∷ codes "m" ∷ codes "3" ∷ []) t
    then ok middle
    else if is_one_of (codes "x1" ∷ codes "back" ∷ codes "4" ∷ []) t
    then ok x1
    else if is_one_of (codes "x2" ∷ codes "forward" ∷ codes "5" ∷ []) t
    then ok x2
    else err (invalid_button t)

unfoldable pub ydotool_click_code : MouseButton → Text
ydotool_click_code left = codes "0xC0"
ydotool_click_code right = codes "0xC1"
ydotool_click_code middle = codes "0xC2"
ydotool_click_code x1 = codes "0xC3"
ydotool_click_code x2 = codes "0xC4"
