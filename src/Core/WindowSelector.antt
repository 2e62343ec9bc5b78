-- ===== src/Core/WindowSelector.antt =====
-- crates/hyprpilot-core/src/selector.rs, `WindowSelector`: the window argument of a dispatcher, its
-- wire form and its parser. Error texts are kept, since they reach the user.
pub mod RoundTrip
use hypr_pilot.Prelude.{
  ℤ, Bool, none, some, ◌++◌, ◌||◌, Text, codes, eq_text, starts_with, split_once, Result, ok, err,
  map_ok, map_err, show_i32, parse_i32, show_error, if◌then◌else◌, ◌==◌,
}

pub data WindowSelector : Type 0 where
  address : Text → WindowSelector
  pid : ℤ → WindowSelector
  class : Text → WindowSelector
  title : Text → WindowSelector
  tag : Text → WindowSelector
  active : WindowSelector

unfoldable pub encode : WindowSelector → Text
encode (address a) =
    if starts_with (codes "0x") a then codes "address:" ++ a else codes "address:0x" ++ a
encode (pid p) = codes "pid:" ++ show_i32 p
encode (class c) = codes "class:" ++ c
encode (title t) = codes "title:" ++ t
encode (tag t) = codes "tag:" ++ t
encode active = codes "activewindow"

missing_prefix : Text → Text
missing_prefix s =
    codes "selector `"
    ++ s
    ++ codes
        "` is missing a prefix; expected one of address:, pid:, class:, title:, tag:, or the literal `active`"

-- the match on the prefix `k`
unfoldable pub by_prefix : Text → Text → Result WindowSelector Text
by_prefix k v =
    if eq_text k (codes "address")
    then ok (address v)
    else if eq_text k (codes "pid")
    then map_ok pid (map_err (λ e. codes "pid is not an integer: " ++ show_error e) (parse_i32 v))
    else if eq_text k (codes "class")
    then ok (class v)
    else if eq_text k (codes "title")
    then ok (title v)
    else if eq_text k (codes "tag")
    then ok (tag v)
    else err (codes "unknown selector prefix `" ++ k ++ codes ":`")

unfoldable pub parse : Text → Result WindowSelector Text
unfolding by_prefix missing_prefix
parse s =
    if eq_text s (codes "active") || eq_text s (codes "activewindow")
    then ok active
    else elim (split_once (λ c. c == b':') s) [
      | none ↦ err (missing_prefix s)
      | some (k, v) ↦ by_prefix k v
    ]
