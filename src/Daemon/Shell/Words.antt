-- ===== src/Daemon/Shell/Words.antt =====
-- How a POSIX shell cuts a command line into words, as far as it needs no expansion: blanks,
-- single quotes and backslashes. A character that the shell treats specially is refused outside
-- quotes, and so is an unfinished quote. A line that begins with an assignment or with a reserved
-- word is no simple command of the words alone, and `sh_command` refuses it.
use hypr_pilot.Prelude.{
  ℕ, Bool, false, Option, none, some, List, [], ◌∷◌, ◌||◌, ◌&&◌, Text, codes, any, ◌==◌, leb,
  eq_text, if◌then◌else◌,
}

pub data Mode : Type 0 where
  outside word quoted escaped : Mode

-- The operators, expansions and the other blanks.
unfoldable pub is_special : ℕ → Bool
is_special c = c == 9 || c == 10 || any (λ d. c == d) (codes "|&;<>()$`\"*?[]#~%!{}^")

-- One more character of the word that is being read.
abbrev pub push : ℕ → Option (List Text) → Option (List Text)
push c none = none
push c (some []) = none
push c (some (w ∷ ws)) = some ((c ∷ w) ∷ ws)

-- The word ends.
abbrev pub close : Option (List Text) → Option (List Text)
close none = none
close (some ws) = some ([] ∷ ws)

-- The words of a text; in the modes inside a word the first one goes on with what was read.
unfoldable pub sh_words : Mode → Text → Option (List Text)
unfolding is_special
sh_words outside [] = some []
sh_words word [] = some ([] ∷ [])
sh_words quoted [] = none
sh_words escaped [] = none
sh_words outside (c ∷ s) = elim (c == b' ') [
  | Bool.true ↦ sh_words outside s
  | Bool.false ↦ elim (c == b'\'') [
    | Bool.true ↦ sh_words quoted s
    | Bool.false ↦ elim (c == b'\\') [
      | Bool.true ↦ sh_words escaped s
      | Bool.false ↦ elim (is_special c) [
        | Bool.true ↦ none
        | Bool.false ↦ push c (sh_words word s)
      ]
    ]
  ]
]
sh_words word (c ∷ s) = elim (c == b' ') [
  | Bool.true ↦ close (sh_words outside s)
  | Bool.false ↦ elim (c == b'\'') [
    | Bool.true ↦ sh_words quoted s
    | Bool.false ↦ elim (c == b'\\') [
      | Bool.true ↦ sh_words escaped s
      | Bool.false ↦ elim (is_special c) [
        | Bool.true ↦ none
        | Bool.false ↦ push c (sh_words word s)
      ]
    ]
  ]
]
sh_words quoted (c ∷ s) = elim (c == b'\'') [
  | Bool.true ↦ sh_words word s
  | Bool.false ↦ push c (sh_words quoted s)
]
sh_words escaped (c ∷ s) = push c (sh_words word s)

-- The text up to the first blank.
unfoldable pub first_token : Text → Text
first_token [] = []
first_token (c ∷ s) = let rest = first_token s in if c == b' ' then [] else c ∷ rest

abbrev is_name_start : ℕ → Bool
is_name_start c = leb b'a' c && leb c b'z' || leb b'A' c && leb c b'Z' || c == b'_'

-- The rest of a variable's name, and `=`.
unfoldable pub assigns : Text → Bool
assigns [] = false
assigns (c ∷ s) = c == b'=' || ((is_name_start c || leb b'0' c && leb c b'9') && assigns s)

-- A variable's name and `=` stand in front of the token.
abbrev pub is_assignment : Text → Bool
is_assignment [] = false
is_assignment (c ∷ s) = is_name_start c && assigns s

-- The reserved words of the shell that hold no special character.
abbrev reserved_words : List Text
reserved_words =
    codes "if"
    ∷ codes "then"
    ∷ codes "else"
    ∷ codes "elif"
    ∷ codes "fi"
    ∷ codes "do"
    ∷ codes "done"
    ∷ codes "case"
    ∷ codes "esac"
    ∷ codes "while"
    ∷ codes "until"
    ∷ codes "for"
    ∷ codes "in"
    ∷ codes "function"
    ∷ codes "select"
    ∷ codes "time"
    ∷ codes "coproc"
    ∷ []

abbrev pub is_reserved : Text → Bool
is_reserved token = any (λ r. eq_text r token) reserved_words

-- The words of a simple command.
unfoldable pub sh_command : Text → Option (List Text)
unfolding sh_words first_token assigns
sh_command line =
    if is_assignment (first_token line) || is_reserved (first_token line)
    then none
    else sh_words outside line
