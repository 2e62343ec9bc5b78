-- ===== src/Daemon/Shell.antt =====
-- crates/hyprpilot-daemon/src/undo.rs, `shell_quote` and `read_proc_cmdline`: the command line that
-- undoes a kill. The file's bytes are an argument; `from_utf8_lossy` is a parameter.
pub mod Words
pub mod RoundTrip
pub mod Command
pub mod Cmdline
use hypr_pilot.Prelude.{
  ℕ, Bool, not, Option, none, some, List, [], ◌∷◌, ◌++◌, ◌&&◌, ◌||◌, map, Text, codes, all, filter,
  join, split, is_empty, leb, ◌==◌, if◌then◌else◌,
}

-- `matches!(b, b'a'..=b'z' | …)`; a character above 127 has no byte in the list.
unfoldable pub is_safe : ℕ → Bool
is_safe b =
    leb b'a' b && leb b b'z'
    || leb b'A' b && leb b b'Z'
    || leb b'0' b && leb b b'9'
    || b == b'_'
    || b == b'-'
    || b == b'.'
    || b == b'/'
    || b == b'='
    || b == b'+'
    || b == b':'
    || b == b','

-- The loop over the characters: an embedded quote closes, escapes and opens again.
unfoldable pub quote_body : Text → Text
quote_body [] = []
quote_body (ch ∷ s) =
    let rest = quote_body s in if ch == b'\'' then codes "'\\''" ++ rest else ch ∷ rest

unfoldable pub shell_quote : Text → Text
unfolding is_safe quote_body
shell_quote s =
    if not (is_empty s) && all is_safe s then s else b'\'' ∷ (quote_body s ++ b'\'' ∷ [])

unfoldable pub quote_all : List Text → Option Text
unfolding shell_quote
quote_all [] = none
quote_all (first ∷ []) = some (shell_quote first)
quote_all (first ∷ rest) =
    some (shell_quote first ++ b' ' ∷ join (codes " ") (map shell_quote rest))

module _ (from_utf8_lossy : List ℕ → Text) where
  -- The arguments that are kept: the empty ones are filtered out.
  unfoldable pub arguments : List ℕ → List Text
  arguments bytes = map from_utf8_lossy (filter (λ s. not (is_empty s)) (split 0 bytes))

  -- `read_proc_cmdline`, given what `fs::read` returned.
  unfoldable pub read_proc_cmdline : Option (List ℕ) → Option Text
  unfolding arguments quote_all
  read_proc_cmdline none = none
  read_proc_cmdline (some bytes) = if is_empty bytes then none else quote_all (arguments bytes)
