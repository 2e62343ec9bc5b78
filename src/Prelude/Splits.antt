-- ===== src/Prelude/Splits.antt =====
-- What splitting, joining and stripping give back.
use Prim.Native.Nat.{ℕ}
use mathlib.Core.Path.{◌≡◌, refl}
use mathlib.Core.Logic.{◌≢◌, inl, inr}
use mathlib.Core.Bool.{Bool, true, false, not, false≢true}
use mathlib.Core.List.{List, [], ◌∷◌, ◌++◌}
use mathlib.Core.Option.{none, some}
use native.Mathlib.Omega.{arith}
use hypr_pilot.Prelude.Tests.{◌==◌, Bool-cases}
use hypr_pilot.Prelude.Lists.{All, all}
use hypr_pilot.Prelude.Texts.{
  Text, strip_prefix, starts_with, split_once, split_once_text, split, join, cons_head,
}

-- No character of the text passes the test.
abbrev pub Lacks : (ℕ → Bool) → Text → Type 0
Lacks p = All (λ c. p c ≡ false)

-- For a literal, the premise holds by computation.
pub Lacks-of_all : (p : ℕ → Bool) (s : Text) → all (λ c. not (p c)) s ≡ true → Lacks p s
Lacks-of_all p [] h = tt
Lacks-of_all p (c ∷ s) h = elim (Bool-cases (p c)) [
  | inl e ↦ absurd (false≢true (rw e at h))
  | inr e ↦ (e, Lacks-of_all p s (rw e at h))
]

pub strip_prefix-append : (p s : Text) → strip_prefix p (p ++ s) ≡ some s
unfolding strip_prefix
strip_prefix-append [] s = refl
strip_prefix-append (c ∷ p) s = ground (arith, strip_prefix-append p s)

pub eq-of_strip_prefix : (p s : Text) {t : Text} → strip_prefix p s ≡ some t → s ≡ p ++ t
unfolding strip_prefix
eq-of_strip_prefix [] s h = cc
eq-of_strip_prefix (c ∷ p) [] h = cc
eq-of_strip_prefix (c ∷ p) (d ∷ s) {t} h = ground (arith, eq-of_strip_prefix p s {t = t})

pub starts_with-append : (p s : Text) → starts_with p (p ++ s) ≡ true
unfolding starts_with
starts_with-append [] s = refl
starts_with-append (c ∷ p) s = ground (arith, starts_with-append p s)

pub split_once-append :
    (p : ℕ → Bool) (s : Text) (c : ℕ) (t : Text)
    → Lacks p s
    → p c ≡ true
    → split_once p (s ++ c ∷ t) ≡ some (s, t)
unfolding split_once
split_once-append p [] c t h e = rw e
split_once-append p (d ∷ s) c t h e = rw (h.0, split_once-append p s c t h.1 e)

pub split_once-Lacks : (p : ℕ → Bool) (s : Text) → Lacks p s → split_once p s ≡ none
unfolding split_once
split_once-Lacks p [] h = refl
split_once-Lacks p (d ∷ s) h = rw (h.0, split_once-Lacks p s h.1)

strip_prefix-ne : (c d : ℕ) (p s : Text) → (c == d) ≡ false → strip_prefix (c ∷ p) (d ∷ s) ≡ none
unfolding strip_prefix
strip_prefix-ne c d p s e = rw e

-- The first occurrence is found behind a text that does not hold its first character.
pub split_once_text-append :
    (c : ℕ) (p s t : Text)
    → Lacks (λ d. c == d) s
    → split_once_text (c ∷ p) (s ++ c ∷ (p ++ t)) ≡ some (s, t)
unfolding split_once_text
split_once_text-append c p [] t h = rw (strip_prefix-append (c ∷ p) t, split_once_text)
split_once_text-append c p (d ∷ s) t h =
    rw (strip_prefix-ne c d p (s ++ c ∷ (p ++ t)) h.0, split_once_text)
      (rw (split_once_text-append c p s t h.1))

module _ (sep : ℕ) where
  pub split-ne-nil : (s : Text) → split sep s ≢ []
  unfolding split
  split-ne-nil [] = cc
  split-ne-nil (c ∷ s) = ground (arith, split-ne-nil s)

  pub split-Lacks : (s : Text) → Lacks (λ c. c == sep) s → split sep s ≡ s ∷ []
  unfolding split
  split-Lacks [] h = refl
  split-Lacks (c ∷ s) h = rw (h.0, split-Lacks s h.1)

  pub split-append :
      (s t : Text) → Lacks (λ c. c == sep) s → split sep (s ++ sep ∷ t) ≡ s ∷ split sep t
  unfolding split
  split-append [] t h = ground arith
  split-append (c ∷ s) t h = rw (h.0, split-append s t h.1)

  join-cons_head :
      (c : ℕ) (ss : List Text) → ss ≢ [] → join (sep ∷ []) (cons_head c ss) ≡ c ∷ join (sep ∷ []) ss
  unfolding join
  join-cons_head c [] h = absurd (h refl)
  join-cons_head c (s ∷ []) h = refl
  join-cons_head c (s ∷ t ∷ ss) h = refl

  join-nil_cons : (ss : List Text) → ss ≢ [] → join (sep ∷ []) ([] ∷ ss) ≡ sep ∷ join (sep ∷ []) ss
  unfolding join
  join-nil_cons [] h = absurd (h refl)
  join-nil_cons (s ∷ ss) h = refl

  join-split_cons :
      (c : ℕ) (s : Text)
      → join (sep ∷ []) (split sep s) ≡ s
      → join (sep ∷ []) (split sep (c ∷ s)) ≡ c ∷ s
  unfolding split
  join-split_cons c s ih = elim (Bool-cases (c == sep)) [
    | inl e ↦ rw e (ground (arith, join-nil_cons (split sep s) (split-ne-nil s)))
    | inr n ↦ rw n (ground (arith, join-cons_head c (split sep s) (split-ne-nil s)))
  ]

  -- Joining the parts of a split gives the text back.
  pub join-split : (s : Text) → join (sep ∷ []) (split sep s) ≡ s
  unfolding split join
  join-split [] = refl
  join-split (c ∷ s) = join-split_cons c s (join-split s)
