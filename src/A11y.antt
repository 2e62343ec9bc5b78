-- ===== src/A11y.antt =====
-- crates/hyprpilot-a11y/src/element.rs and error.rs: a node of the accessibility tree, its box, and
-- what a query matches.
use hypr_pilot.Prelude.{
  ℕ, ℤ, pos, Bool, true, false, ◌&&◌, ◌||◌, Option, none, some, is_some, List, [], ◌∷◌, ◌++◌,
  filter, Text, codes, is_empty, starts_with, eq_text, lowercase, add_i32, half, lt_ℤ, show_i32,
  if◌then◌else◌,
}

pub record Element : Type 0 where
  pub role : Text
  pub name : Text
  pub text : Option Text
  pub x : ℤ
  pub y : ℤ
  pub w : ℤ
  pub h : ℤ
  pub depth : ℕ
  pub path : Text

-- `Element::is_clickable`
unfoldable pub is_clickable : Element → Bool
is_clickable e = lt_ℤ (pos 0) e.w && lt_ℤ (pos 0) e.h

-- `Element::center`
unfoldable pub element_center : Element → ℤ × ℤ
element_center e = (add_i32 e.x (half e.w), add_i32 e.y (half e.h))

-- `s.contains(p)`
unfoldable pub contains_text : Text → Text → Bool
contains_text p [] = is_empty p
contains_text p (c ∷ s) = starts_with p (c ∷ s) || contains_text p s

-- `role.map(|r| el.role.eq_ignore_ascii_case(r)).unwrap_or(true)`
abbrev pub role_matches : Element → Option Text → Bool
role_matches e none = true
role_matches e (some r) = eq_text (lowercase e.role) (lowercase r)

abbrev pub text_matches : (Text → Text) → Text → Option Text → Bool
text_matches to_lowercase q none = false
text_matches to_lowercase q (some t) = contains_text q (to_lowercase t)

-- `to_lowercase` is that of a `str`, by the tables of Unicode.
unfoldable pub matches : (Text → Text) → Element → Text → Option Text → Bool
unfolding contains_text
matches to_lowercase e query role =
    if role_matches e role
    then (if is_empty query
        then is_some role
        else contains_text (to_lowercase query) (to_lowercase e.name)
          || text_matches to_lowercase (to_lowercase query) e.text)
    else false

unfoldable pub filter_elements : (Text → Text) → List Element → Text → Option Text → List Element
unfolding matches
filter_elements to_lowercase es query role = filter (λ e. matches to_lowercase e query role) es

pub data A11yError : Type 0 where
  unavailable : (message : Text) → A11yError
  bus : (message : Text) → A11yError
  no_application : (pid : Option ℤ) → A11yError

-- `{0:?}`
abbrev pub debug_pid : Option ℤ → Text
debug_pid none = codes "None"
debug_pid (some p) = codes "Some(" ++ show_i32 p ++ codes ")"

-- The `Display` that thiserror derives.
unfoldable pub show_a11y_error : A11yError → Text
show_a11y_error (unavailable m) = codes "accessibility bus unavailable: " ++ m
show_a11y_error (bus m) = codes "atspi call failed: " ++ m
show_a11y_error (no_application p) =
    codes "no accessible application matched (pid " ++ debug_pid p ++ codes ")"
