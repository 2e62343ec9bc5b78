-- ===== src/Core/WorkspaceRef.antt =====
-- crates/hyprpilot-core/src/selector.rs, `WorkspaceRef`: the workspace argument of a dispatcher, its
-- wire form and its parser.
pub mod RoundTrip
use hypr_pilot.Prelude.{
  ℤ, pos, negsuc, Bool, none, some, [], ◌++◌, ◌∷◌, ◌||◌, Text, codes, eq_text, starts_with,
  strip_prefix, Result, ok, err, map_ok, map_err, show_i32, parse_i32, show_error, if◌then◌else◌,
  is_empty,
}

pub data WorkspaceRef : Type 0 where
  id : ℤ → WorkspaceRef
  name : Text → WorkspaceRef
  relative : ℤ → WorkspaceRef
  previous next empty : WorkspaceRef
  special : Text → WorkspaceRef

unfoldable pub encode : WorkspaceRef → Text
encode (id n) = show_i32 n
encode (name n) = codes "name:" ++ n
encode (relative (pos n)) = b'+' ∷ show_i32 (pos n)
encode (relative (negsuc n)) = show_i32 (negsuc n)
encode previous = codes "prev"
encode next = codes "next"
encode empty = codes "empty"
encode (special n) = if is_empty n then codes "special" else codes "special:" ++ n

-- The numeric forms: `+N`, `-N` and `N`.
unfoldable pub parse_number : Text → Result WorkspaceRef Text
parse_number s = elim (strip_prefix (codes "+") s) [
  | some rest ↦
      map_ok relative
        (map_err (λ e. codes "invalid relative offset: " ++ show_error e) (parse_i32 rest))
  | none ↦
      if starts_with (codes "-") s
      then map_ok relative
          (map_err (λ e. codes "invalid relative offset: " ++ show_error e) (parse_i32 s))
      else map_ok id (map_err (λ e. codes "invalid workspace id: " ++ show_error e) (parse_i32 s))
]

-- The match on whole words, behind the prefixes.
unfoldable pub parse_word : Text → Result WorkspaceRef Text
unfolding parse_number
parse_word s =
    if eq_text s (codes "special")
    then ok (special [])
    else if eq_text s (codes "empty")
    then ok empty
    else if eq_text s (codes "prev") || eq_text s (codes "previous")
    then ok previous
    else if eq_text s (codes "next")
    then ok next
    else parse_number s

unfoldable pub parse : Text → Result WorkspaceRef Text
unfolding parse_word
parse s = elim (strip_prefix (codes "name:") s) [
  | some rest ↦ ok (name rest)
  | none ↦ elim (strip_prefix (codes "special:") s) [
    | some rest ↦ ok (special rest)
    | none ↦ parse_word s
  ]
]
