-- ===== src/Vision/TextSearch.antt =====
-- crates/hyprpilot-vision/src/ocr.rs: the search for a text among the words that OCR found.
pub mod Sound
use hypr_pilot.Prelude.{
  ℕ, ℤ, pos, Bool, true, false, ◌&&◌, ◌||◌, Option, none, some, List, [], ◌∷◌, ◌++◌, map, length,
  Text, codes, eq_text, lowercase, words, join, is_empty, leb, ltb, if◌then◌else◌, lt_ℤ, min_ℤ,
  saturating_add,
}
use hypr_pilot.Vision.Geometry.{BBox, union}

pub record Word : Type 0 where
  pub text : Text
  pub bbox : BBox
  pub confidence : ℤ

pub record TextMatch : Type 0 where
  pub text : Text
  pub bbox : BBox
  pub confidence : ℤ

-- The spans of the two boxes in `y` meet.
unfoldable pub same_row : BBox → BBox → Bool
same_row a b = lt_ℤ a.y (saturating_add b.y b.h) && lt_ℤ b.y (saturating_add a.y a.h)

-- The closure `normalize`.
unfoldable pub normalize : Bool → Text → Text
normalize case_sensitive s = if case_sensitive then s else lowercase s

-- The word before is in the same row, if there is one.
unfoldable pub follows : Option Word → Word → Bool
unfolding same_row
follows none w = true
follows (some v) w = same_row v.bbox w.bbox

-- The inner loop: the words begin with the wanted tokens, each in the row of the one before.
unfoldable pub begins_with : Bool → Option Word → List Text → List Word → Bool
unfolding normalize follows
begins_with cs prev [] ws = true
begins_with cs prev (t ∷ ts) [] = false
begins_with cs prev (t ∷ ts) (w ∷ ws) =
    eq_text (normalize cs w.text) t && (follows prev w && begins_with cs (some w) ts ws)

-- The first `n` of a list, or all of them.
unfoldable pub first : List Text → List Word → List Word
first [] ws = []
first (t ∷ ts) [] = []
first (t ∷ ts) (w ∷ ws) = w ∷ first ts ws

unfoldable pub union_all : BBox → List Word → BBox
unfolding union
union_all b [] = b
union_all b (w ∷ ws) = union_all (union b w.bbox) ws

unfoldable pub least_confidence : ℤ → List Word → ℤ
least_confidence c [] = c
least_confidence c (w ∷ ws) = least_confidence (min_ℤ c w.confidence) ws

abbrev pub word_text : Word → Text
word_text w = w.text

-- The match of a run `w ∷ ws`.
unfoldable pub match_of : Word → List Word → TextMatch
unfolding union_all least_confidence
match_of w ws = record {
  text = join (codes " ") (map word_text (w ∷ ws));
  bbox = union_all w.bbox ws;
  confidence = least_confidence w.confidence ws;
}

-- The outer loop, over the beginnings that leave enough words. `want` is `t ∷ ts`.
unfoldable pub runs : Bool → Text → List Text → List Word → List TextMatch
unfolding begins_with first match_of
runs cs t ts [] = []
runs cs t ts (w ∷ ws) =
    let rest = runs cs t ts ws in
    if ltb (length ws) (length ts)
    then []
    else if begins_with cs none (t ∷ ts) (w ∷ ws)
    then match_of w (first ts ws) ∷ rest
    else rest

-- The tokens that are wanted, and the guards.
unfoldable pub find_wanted : Bool → List Text → List Word → List TextMatch
unfolding runs normalize
find_wanted cs [] ws = []
find_wanted cs (t ∷ ts) ws =
    if ltb (length ws) (length (t ∷ ts))
    then []
    else runs cs (normalize cs t) (map (normalize cs) ts) ws

unfoldable pub find_word_runs : List Word → Text → Bool → List TextMatch
unfolding find_wanted
find_word_runs ws query case_sensitive = find_wanted case_sensitive (words query) ws
