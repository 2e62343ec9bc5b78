-- ===== src/Prelude/Texts.antt =====
-- Rust's `str` as its characters (code points), and the methods that the program calls on it.
use Prim.Native.Nat.{ℕ, ◌+◌}
use Prim.Native.Char.{code}
use Prim.Native.String.{String}
use mathlib.Core.Path.{◌≡◌, refl, ap, sym, subst}
use mathlib.Core.Logic.{◌↔◌}
use mathlib.Core.Bool.{Bool, true, false, not, ◌&&◌, ◌||◌}
use mathlib.Core.List.{List, [], ◌∷◌, ◌++◌}
use mathlib.Core.Option.{Option, none, some, some-injective}
use native.Mathlib.Omega.{arith}
use hypr_pilot.Prelude.Tests.{◌==◌, leb, if◌then◌else◌}
use hypr_pilot.Prelude.Lists.{any}

abbrev pub Text : Type 0
Text = List ℕ

-- The code points of a literal.
abbrev pub codes : String → Text
codes String.[] = []
codes (String.◌∷◌ c s) = code c ∷ codes s

unfoldable pub eq_text : Text → Text → Bool
eq_text [] [] = true
eq_text (c ∷ s) (d ∷ t) = c == d && eq_text s t
eq_text _ _ = false

pub eq-of_eq_text : (s t : Text) → eq_text s t ≡ true → s ≡ t
unfolding eq_text
eq-of_eq_text [] [] h = refl
eq-of_eq_text (c ∷ s) (d ∷ t) h = ground (arith, eq-of_eq_text s t)
eq-of_eq_text [] (d ∷ t) h = ground arith
eq-of_eq_text (c ∷ s) [] h = ground arith

pub eq_text_refl : (s : Text) → eq_text s s ≡ true
unfolding eq_text
eq_text_refl [] = refl
eq_text_refl (c ∷ s) = ground (arith, eq_text_refl s)

pub eq_text_iff : (s t : Text) → (eq_text s t ≡ true) ↔ (s ≡ t)
eq_text_iff s t = (eq-of_eq_text s t, λ e. rw e (eq_text_refl t))

pub eq_text_sym : (s t : Text) → eq_text s t ≡ false → eq_text t s ≡ false
eq_text_sym s t h = ground (arith, eq_text_iff s t, eq_text_iff t s)

-- `o == Some(t)`
unfoldable pub is_text : Option Text → Text → Bool
is_text none t = false
is_text (some s) t = eq_text s t

pub is_text_iff : (o : Option Text) (t : Text) → (is_text o t ≡ true) ↔ (o ≡ some t)
unfolding is_text
is_text_iff none t = ((λ h. cc), (λ h. cc))
is_text_iff (some s) t = (
  (λ h. ap some (eq-of_eq_text s t h)),
  (λ h. subst (λ x. eq_text x t ≡ true) (sym (some-injective s t h)) (eq_text_refl t)),
)

abbrev pub is_empty {ℓ} : {A : Type ℓ} → List A → Bool
is_empty [] = true
is_empty (c ∷ s) = false

-- `s.strip_prefix(p)`
unfoldable pub strip_prefix : Text → Text → Option Text
strip_prefix [] s = some s
strip_prefix (c ∷ p) [] = none
strip_prefix (c ∷ p) (d ∷ s) = if c == d then strip_prefix p s else none

unfoldable pub starts_with : Text → Text → Bool
starts_with [] s = true
starts_with (c ∷ p) [] = false
starts_with (c ∷ p) (d ∷ s) = c == d && starts_with p s

-- `s.eq_ignore_ascii_case`, `to_ascii_lowercase`: only A to Z change.
abbrev pub to_lower : ℕ → ℕ
to_lower c = if leb b'A' c && leb c b'Z' then c + 32 else c

unfoldable pub lowercase : Text → Text
lowercase [] = []
lowercase (c ∷ s) = to_lower c ∷ lowercase s

-- `char::is_whitespace`: the code points with the Unicode property White_Space.
unfoldable pub is_whitespace : ℕ → Bool
is_whitespace c =
    c == 32
    || leb 9 c && leb c 13
    || c == 0x85
    || c == 0xa0
    || c == 0x1680
    || leb 0x2000 c && leb c 0x200a
    || c == 0x2028
    || c == 0x2029
    || c == 0x202f
    || c == 0x205f
    || c == 0x3000

-- `s.trim_start_matches(p)` for a test on characters.
unfoldable pub trim_start : (ℕ → Bool) → Text → Text
trim_start p [] = []
trim_start p (c ∷ s) = if p c then trim_start p s else c ∷ s

-- `s.trim_end_matches(p)`: a character goes when it passes and nothing is left behind it.
unfoldable pub trim_end : (ℕ → Bool) → Text → Text
trim_end p [] = []
trim_end p (c ∷ s) = let rest = trim_end p s in if p c && is_empty rest then [] else c ∷ rest

unfoldable pub trim : Text → Text
unfolding trim_start trim_end is_whitespace
trim s = trim_end is_whitespace (trim_start is_whitespace s)

abbrev pub cons_first : ℕ → Option (Text × Text) → Option (Text × Text)
cons_first c none = none
cons_first c (some (s, t)) = some (c ∷ s, t)

-- `s.split_once(c)` for a character: the parts around the first one that passes the test.
unfoldable pub split_once : (ℕ → Bool) → Text → Option (Text × Text)
split_once p [] = none
split_once p (c ∷ s) = if p c then some ([], s) else cons_first c (split_once p s)

-- `s.split_once(p)` for a text: the parts around the first occurrence.
unfoldable pub split_once_text : Text → Text → Option (Text × Text)
split_once_text p [] = elim (strip_prefix p []) [ some rest ↦ some ([], rest) | none ↦ none ]
split_once_text p (c ∷ s) = elim (strip_prefix p (c ∷ s)) [
  | some rest ↦ some ([], rest)
  | none ↦ cons_first c (split_once_text p s)
]

-- `parts.join(sep)`
unfoldable pub join : Text → List Text → Text
join sep [] = []
join sep (s ∷ []) = s
join sep (s ∷ t ∷ ts) = s ++ sep ++ join sep (t ∷ ts)

abbrev pub cons_head : ℕ → List Text → List Text
cons_head c [] = (c ∷ []) ∷ []
cons_head c (s ∷ ss) = (c ∷ s) ∷ ss

-- `s.split(sep)` for a character: always at least one part.
unfoldable pub split : ℕ → Text → List Text
split sep [] = [] ∷ []
split sep (c ∷ s) = if c == sep then [] ∷ split sep s else cons_head c (split sep s)

-- The text goes on with a word.
abbrev pub starts_word : Text → Bool
starts_word [] = false
starts_word (c ∷ s) = not (is_whitespace c)

-- `s.split_whitespace()`: the parts between runs of white space, none of them empty.
unfoldable pub words : Text → List Text
unfolding is_whitespace
words [] = []
words (c ∷ s) =
    let rest = words s in
    if is_whitespace c then rest else if starts_word s then cons_head c rest else (c ∷ []) ∷ rest

-- `s.split_whitespace().next().unwrap_or("")`
unfoldable pub first_word : Text → Text
unfolding words
first_word s = elim (words s) [ [] ↦ [] | w ∷ _ ↦ w ]

-- No text occurs twice.
pub data Distinct : List Text → Type 0 where
  distinct_nil : Distinct []
  distinct_cons :
      (a : Text) (rest : List Text)
      → any (λ x. eq_text x a) rest ≡ false
      → Distinct rest
      → Distinct (a ∷ rest)
