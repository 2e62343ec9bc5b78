-- ===== src/Prelude/Trims.antt =====
-- White space at the ends of a text and between its words.
use Prim.Native.Nat.{ℕ, zero, suc, ◌+◌, ◌/◌, ◌%◌, ◌<◌}
use mathlib.Core.Path.{◌≡◌, refl, ap}
use mathlib.Core.Logic.{◌≢◌, inl, inr}
use mathlib.Core.Bool.{Bool, true, false, not}
use mathlib.Core.List.{List, [], ◌∷◌, ◌++◌}
use native.Mathlib.Omega.{arith}
use hypr_pilot.Prelude.Tests.{ltb, Bool-cases}
use hypr_pilot.Prelude.Splits.{Lacks}
use hypr_pilot.Prelude.Ints.{ℤ, pos, negsuc, digits, show_ℕ, show_ℕ_head, show_i32}
use hypr_pilot.Prelude.Texts.{
  Text, trim, trim_start, trim_end, is_whitespace, words, starts_word, cons_head,
}

-- No white space at either end, and some text.
pub record IsTrimmed (t : Text) : Type 0 where
  pub nonempty : t ≢ []
  pub left : trim_start is_whitespace t ≡ t
  pub right : trim_end is_whitespace t ≡ t

pub trim-IsTrimmed : {t : Text} → IsTrimmed t → trim t ≡ t
unfolding trim
trim-IsTrimmed h = rw (h.left, h.right)

pub append-ne-nil {ℓ} : {A : Type ℓ} (s : List A) {t : List A} → t ≢ [] → s ++ t ≢ []
append-ne-nil [] n = n
append-ne-nil (c ∷ s) n = cc

trim_end-cons :
    (p : ℕ → Bool) (c : ℕ) (s : Text) → s ≢ [] → trim_end p s ≡ s → trim_end p (c ∷ s) ≡ c ∷ s
unfolding trim_end
trim_end-cons p c [] n e = absurd (n refl)
trim_end-cons p c (d ∷ s) n e = ground arith

-- An end that is kept keeps what stands before it.
pub trim_end-append :
    (p : ℕ → Bool) (s t : Text) → t ≢ [] → trim_end p t ≡ t → trim_end p (s ++ t) ≡ s ++ t
trim_end-append p [] t n h = h
trim_end-append p (c ∷ s) t n h =
    trim_end-cons p c (s ++ t) (append-ne-nil s n) (trim_end-append p s t n h)

trim_end-Lacks : (p : ℕ → Bool) (s : Text) → Lacks p s → trim_end p s ≡ s
unfolding trim_end
trim_end-Lacks p [] h = refl
trim_end-Lacks p (c ∷ s) h = rw (h.0, trim_end-Lacks p s h.1)

trim_start-Lacks : (p : ℕ → Bool) (s : Text) → Lacks p s → trim_start p s ≡ s
unfolding trim_start
trim_start-Lacks p [] h = refl
trim_start-Lacks p (c ∷ s) h = rw h.0

-- A text with no white space is trimmed.
pub Lacks-IsTrimmed : {t : Text} → t ≢ [] → Lacks is_whitespace t → IsTrimmed t
Lacks-IsTrimmed n h = record {
  nonempty = n;
  left = trim_start-Lacks is_whitespace _ h;
  right = trim_end-Lacks is_whitespace _ h;
}

trim_start-append :
    (p : ℕ → Bool) (s t : Text) → s ≢ [] → Lacks p s → trim_start p (s ++ t) ≡ s ++ t
unfolding trim_start
trim_start-append p [] t n h = absurd (n refl)
trim_start-append p (c ∷ s) t n h = rw h.0

-- Words in front of a trimmed text leave it trimmed.
pub IsTrimmed-append :
    (s : Text) {t : Text} → s ≢ [] → Lacks is_whitespace s → IsTrimmed t → IsTrimmed (s ++ b' ' ∷ t)
IsTrimmed-append s {t} n l h = record {
  nonempty = append-ne-nil s (cc);
  left = trim_start-append is_whitespace s (b' ' ∷ t) n l;
  right =
      trim_end-append is_whitespace s (b' ' ∷ t) (cc)
        (trim_end-cons is_whitespace b' ' t h.nonempty h.right);
}

words-starts_word :
    (c : ℕ) (s : Text)
    → is_whitespace c ≡ false
    → starts_word s ≡ true
    → words (c ∷ s) ≡ cons_head c (words s)
words-starts_word c s e w = unfold words is_whitespace in ground arith

words-last : (c : ℕ) → is_whitespace c ≡ false → words (c ∷ []) ≡ (c ∷ []) ∷ []
words-last c e = unfold words is_whitespace in ground arith

-- A text with no white space is one word.
pub words-Lacks : (s : Text) → s ≢ [] → Lacks is_whitespace s → words s ≡ s ∷ []
words-Lacks [] n h = absurd (n refl)
words-Lacks (c ∷ []) n h = words-last c h.0
words-Lacks (c ∷ d ∷ s) n h =
    rw (words-starts_word c (d ∷ s) h.0 (ap not h.1.0), words-Lacks (d ∷ s) (cc) h.1)

words-space : (s : Text) → words (b' ' ∷ s) ≡ words s
unfolding words
words-space s = refl

words-before_space :
    (c : ℕ) (s : Text) → is_whitespace c ≡ false → words (c ∷ b' ' ∷ s) ≡ (c ∷ []) ∷ words s
words-before_space c s e = unfold words is_whitespace in ground arith

-- A word in front of a space is the first of the words.
pub words-append :
    (s t : Text) → s ≢ [] → Lacks is_whitespace s → words (s ++ b' ' ∷ t) ≡ s ∷ words t
words-append [] t n h = absurd (n refl)
words-append (c ∷ []) t n h = words-before_space c t h.0
words-append (c ∷ d ∷ s) t n h =
    rw (words-starts_word c (d ∷ s ++ b' ' ∷ t) h.0 (ap not h.1.0), words-append (d ∷ s) t (cc) h.1)

digit-Lacks : (n : ℕ) → n < 10 → is_whitespace (b'0' + n) ≡ false
unfolding is_whitespace
digit-Lacks n h = ground arith

digits-Lacks :
    (fuel n : ℕ) (out : Text) → Lacks is_whitespace out → Lacks is_whitespace (digits fuel n out)
unfolding digits
digits-Lacks zero n out h = h
digits-Lacks (suc fuel) n out h = elim (Bool-cases (ltb n 10)) [
  | inl e ↦ rw e (digit-Lacks n (ground arith), h)
  | inr e ↦ rw e (digits-Lacks fuel (n / 10) _ (digit-Lacks (n % 10) (omega arith), h))
]

-- The print of an integer has no white space.
pub show_i32-Lacks : (z : ℤ) → Lacks is_whitespace (show_i32 z)
unfolding show_i32 show_ℕ
show_i32-Lacks (pos n) = digits-Lacks (suc n) n [] tt
show_i32-Lacks (negsuc n) = (unfold is_whitespace in refl, digits-Lacks (suc (suc n)) (suc n) [] tt)

pub show_i32-ne-nil : (z : ℤ) → show_i32 z ≢ []
unfolding show_i32
show_i32-ne-nil (pos n) = let (c, s, e, _, _) = show_ℕ_head n in cc
show_i32-ne-nil (negsuc n) = cc

-- A character that passes the test is trimmed off the end.
pub trim_end-concat :
    (p : ℕ → Bool) (s : Text) (c : ℕ) → p c ≡ true → trim_end p (s ++ c ∷ []) ≡ trim_end p s
unfolding trim_end
trim_end-concat p [] c e = rw e
trim_end-concat p (d ∷ s) c e = rw (trim_end-concat p s c e)

-- A character that fails the test protects what stands before it.
pub trim_end-keeps :
    (p : ℕ → Bool) (s : Text) (c : ℕ) (t : Text)
    → p c ≡ false
    → trim_end p t ≡ t
    → trim_end p (s ++ c ∷ t) ≡ s ++ c ∷ t
trim_end-keeps p s c t f e = trim_end-append p s (c ∷ t) (cc) (unfold trim_end in rw (f, e))
