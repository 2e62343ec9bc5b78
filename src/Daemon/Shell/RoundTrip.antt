-- ===== src/Daemon/Shell/RoundTrip.antt =====
-- The shell reads a quoted command line back as the arguments.
use hypr_pilot.Prelude.{
  ℕ, ◌≡◌, refl, ◌∙◌, sym, ==_iff, append-nil, inl, inr, true, false, not, Bool-cases, Option, none,
  some, List, [], ◌∷◌, ◌++◌, ◌&&◌, map, Text, codes, all, join, is_empty, ◌==◌, arith, append_assoc,
}
use mathlib.Core.Path.{subst}
use mathlib.Core.Bool.{false≢true}
use hypr_pilot.Daemon.Shell.{is_safe, quote_body, shell_quote, quote_all}
use hypr_pilot.Daemon.Shell.Words.{outside, word, quoted, is_special, push, close, sh_words}

-- A safe character stands for itself outside quotes.
pub safe_plain :
    (c : ℕ)
    → is_safe c ≡ true
    → ((c == b' ') ≡ false)
      × ((c == b'\'') ≡ false)
      × ((c == b'\\') ≡ false)
      × (is_special c ≡ false)
unfolding is_safe is_special
safe_plain c h = (ground arith, ground arith, ground arith, ground arith)

word_safe : (c : ℕ) (s : Text) → is_safe c ≡ true → sh_words word (c ∷ s) ≡ push c (sh_words word s)
unfolding sh_words
word_safe c s h = ground (arith, safe_plain c h)

outside_safe :
    (c : ℕ) (s : Text) → is_safe c ≡ true → sh_words outside (c ∷ s) ≡ push c (sh_words word s)
unfolding sh_words
outside_safe c s h = ground (arith, safe_plain c h)

-- The words of a text that goes on with `rest`, which begins at the end of a word.
abbrev Ends : Text → Type 0
Ends rest = sh_words word rest ≡ close (sh_words outside rest)

-- The word and those behind it.
abbrev pub prepend : Text → Option (List Text) → Option (List Text)
prepend s none = none
prepend s (some ws) = some (s ∷ ws)

push-prepend :
    (c : ℕ) (s : Text) (o : Option (List Text)) → push c (prepend s o) ≡ prepend (c ∷ s) o
push-prepend c s none = refl
push-prepend c s (some ws) = refl

close-prepend : (o : Option (List Text)) → close o ≡ prepend [] o
close-prepend none = refl
close-prepend (some ws) = refl

word-safe_text :
    (s rest : Text)
    → all is_safe s ≡ true
    → Ends rest
    → sh_words word (s ++ rest) ≡ prepend s (sh_words outside rest)
word-safe_text [] rest h e = e ∙ close-prepend (sh_words outside rest)
word-safe_text (c ∷ s) rest h e = elim (Bool-cases (is_safe c)) [
  | inl safe ↦
      word_safe c (s ++ rest) safe
      ∙ (rw (word-safe_text s rest (rw safe at h) e) (push-prepend c s (sh_words outside rest)))
  | inr unsafe ↦ absurd (false≢true (rw unsafe at h))
]

outside-safe_text :
    (s rest : Text)
    → not (is_empty s) && all is_safe s ≡ true
    → Ends rest
    → sh_words outside (s ++ rest) ≡ prepend s (sh_words outside rest)
outside-safe_text [] rest h e = absurd (false≢true h)
outside-safe_text (c ∷ s) rest h e = elim (Bool-cases (is_safe c)) [
  | inl safe ↦
      outside_safe c (s ++ rest) safe
      ∙ (rw (word-safe_text s rest (rw safe at h) e) (push-prepend c s (sh_words outside rest)))
  | inr unsafe ↦ absurd (false≢true (rw unsafe at h))
]

quoted_plain :
    (c : ℕ) (s : Text) → (c == b'\'') ≡ false → sh_words quoted (c ∷ s) ≡ push c (sh_words quoted s)
unfolding sh_words
quoted_plain c s h = ground arith

quoted_quote : (s : Text) → sh_words quoted (codes "'\\''" ++ s) ≡ push b'\'' (sh_words quoted s)
unfolding sh_words
quoted_quote s = refl

quote_body-quote : (s : Text) → quote_body (b'\'' ∷ s) ≡ codes "'\\''" ++ quote_body s
unfolding quote_body
quote_body-quote s = refl

quote_body-plain : (c : ℕ) (s : Text) → (c == b'\'') ≡ false → quote_body (c ∷ s) ≡ c ∷ quote_body s
unfolding quote_body
quote_body-plain c s h = rw h

quoted-quote_case :
    (s rest : Text)
    → sh_words quoted (quote_body s ++ b'\'' ∷ rest) ≡ prepend s (sh_words outside rest)
    → sh_words quoted (quote_body (b'\'' ∷ s) ++ b'\'' ∷ rest)
      ≡ prepend (b'\'' ∷ s) (sh_words outside rest)
quoted-quote_case s rest ih =
    rw (quote_body-quote s, quoted_quote (quote_body s ++ b'\'' ∷ rest), ih)
      (push-prepend b'\'' s (sh_words outside rest))

-- Between quotes the whole text comes back, embedded quotes included.
quoted-quote_body :
    (s rest : Text)
    → Ends rest
    → sh_words quoted (quote_body s ++ b'\'' ∷ rest) ≡ prepend s (sh_words outside rest)
quoted-quote_body [] rest e =
    unfold quote_body sh_words in (e ∙ close-prepend (sh_words outside rest))
quoted-quote_body (c ∷ s) rest e =
    let ih = quoted-quote_body s rest e in
    elim (Bool-cases (c == b'\'')) [
      | inl q ↦
          subst
            (λ d.
              sh_words quoted (quote_body (d ∷ s) ++ b'\'' ∷ rest)
              ≡ prepend (d ∷ s) (sh_words outside rest))
            (sym ((==_iff c b'\'').0 q)) (quoted-quote_case s rest ih)
      | inr n ↦
          rw (quote_body-plain c s n, quoted_plain c (quote_body s ++ b'\'' ∷ rest) n, ih)
            (push-prepend c s (sh_words outside rest))
    ]

outside-quoted :
    (s rest : Text)
    → Ends rest
    → sh_words outside ((b'\'' ∷ (quote_body s ++ b'\'' ∷ [])) ++ rest)
      ≡ prepend s (sh_words outside rest)
outside-quoted s rest e = rw append_assoc (unfold sh_words in (quoted-quote_body s rest e))

-- The shell reads one quoted argument, whatever its text is, as that argument.
pub outside-shell_quote :
    (s rest : Text)
    → Ends rest
    → sh_words outside (shell_quote s ++ rest) ≡ prepend s (sh_words outside rest)
outside-shell_quote s rest e = elim (Bool-cases (not (is_empty s) && all is_safe s)) [
  | inl safe ↦ unfold shell_quote in rw safe (outside-safe_text s rest safe e)
  | inr unsafe ↦ unfold shell_quote in rw unsafe (outside-quoted s rest e)
]

Ends-nil : Ends []
unfolding sh_words
Ends-nil = refl

Ends-space : (s : Text) → Ends (b' ' ∷ s)
unfolding sh_words
Ends-space s = refl

outside-space : (s : Text) → sh_words outside (b' ' ∷ s) ≡ sh_words outside s
unfolding sh_words
outside-space s = refl

pub outside-last : (s : Text) → sh_words outside (shell_quote s) ≡ some (s ∷ [])
outside-last s =
    subst (λ t. sh_words outside t ≡ some (s ∷ [])) (append-nil (shell_quote s))
      (outside-shell_quote s [] Ends-nil ∙ (unfold sh_words in refl))

-- A word, a space and a line whose words are known.
pub outside-more :
    (s line : Text) (ws : List Text)
    → sh_words outside line ≡ some ws
    → sh_words outside (shell_quote s ++ b' ' ∷ line) ≡ some (s ∷ ws)
outside-more s line ws h =
    outside-shell_quote s (b' ' ∷ line) (Ends-space line) ∙ (rw (outside-space line, h))

pub outside-join :
    (s : Text) (ss : List Text)
    → sh_words outside (join (codes " ") (map shell_quote (s ∷ ss))) ≡ some (s ∷ ss)
unfolding join
outside-join s [] = outside-last s
outside-join s (t ∷ ts) =
    rw append_assoc
      (outside-more s (join (codes " ") (map shell_quote (t ∷ ts))) (t ∷ ts) (outside-join t ts))

-- The words of a line of quoted arguments are the arguments.
pub sh_words-quote_all :
    (s : Text) (ss : List Text)
    → (line : Text) × (quote_all (s ∷ ss) ≡ some line) × (sh_words outside line ≡ some (s ∷ ss))
unfolding quote_all
sh_words-quote_all s [] = (shell_quote s, refl, outside-last s)
sh_words-quote_all s (t ∷ ts) =
    let rest = join (codes " ") (map shell_quote (t ∷ ts)) in
    (shell_quote s ++ b' ' ∷ rest, refl, outside-more s rest (t ∷ ts) (outside-join t ts))
