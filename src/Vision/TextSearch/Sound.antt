-- ===== src/Vision/TextSearch/Sound.antt =====
-- What the search finds, and that it misses nothing.
use hypr_pilot.Prelude.{Bool, true, ◌≡◌, Option, none, some, List, [], ◌∷◌, ◌++◌, Text}
use hypr_pilot.Vision.TextSearch.{Word, TextMatch, normalize, follows, match_of}

-- The words spell the tokens and stand in one row, each with the one before it.
pub data Spells (cs : Bool) : Option Word → List Text → List Word → Type 0 where
  done : {prev : Option Word} → Spells cs prev [] []
  word :
      {prev : Option Word} {t : Text} {ts : List Text} {w : Word} {ws : List Word}
      → normalize cs w.text ≡ t
      → follows prev w ≡ true
      → Spells cs (some w) ts ws
      → Spells cs prev (t ∷ ts) (w ∷ ws)

-- A run of the words that spells the tokens, with its match.
pub record Occurs (cs : Bool) (want : List Text) (ws : List Word) (m : TextMatch) : Type 0 where
  pub before : List Word
  pub start : Word
  pub rest : List Word
  pub after : List Word
  pub parts : ws ≡ before ++ (start ∷ (rest ++ after))
  pub spells : Spells cs none want (start ∷ rest)
  pub same : m ≡ match_of start rest
