-- ===== src/Daemon/Undo/History.antt =====
-- The undo stack as a bounded history, newest entry first.
use hypr_pilot.Prelude.{
  ℕ, zero, suc, ◌≤◌, ◌<◌, ◌≡◌, refl, sym, ap, ◌∙◌, true, false, some, List, [], ◌∷◌, ◌++◌, length,
  length-append, reverse, arith, ltb, inl, inr, ◌⊎◌, ◌==◌, if◌then◌else◌,
}
use mathlib.Core.List.{reverse-cons}
use native.Mathlib.Decide.{dec_lt}
use hypr_pilot.Daemon.Undo.{UndoEntry, UndoStack, pop_front, pop_back, drop_oldest}

-- The first `n` elements.
abbrev pub take {ℓ} : {A : Type ℓ} → ℕ → List A → List A
take zero xs = []
take (suc n) [] = []
take (suc n) (x ∷ xs) = x ∷ take n xs

pub take-all {ℓ} : {A : Type ℓ} (n : ℕ) (xs : List A) → length xs ≤ n → take n xs ≡ xs
take-all zero [] h = refl
take-all (suc n) [] h = refl
take-all zero (x ∷ xs) h = absurd (omega arith)
take-all (suc n) (x ∷ xs) h = ap (λ t. x ∷ t) (take-all n xs (omega arith))

take-append {ℓ} :
    {A : Type ℓ} (n : ℕ) (xs ys : List A) → n ≤ length xs → take n (xs ++ ys) ≡ take n xs
take-append zero xs ys h = refl
take-append (suc n) [] ys h = absurd (omega arith)
take-append (suc n) (x ∷ xs) ys h = ap (λ t. x ∷ t) (take-append n xs ys (omega arith))

pub length-reverse {ℓ} : {A : Type ℓ} (xs : List A) → length (reverse xs) ≡ length xs
length-reverse [] = refl
length-reverse (x ∷ xs) =
    ap length (reverse-cons x xs)
    ∙ length-append (reverse xs) (x ∷ [])
    ∙ omega (arith, length-reverse xs)

abbrev pub history : UndoStack → List UndoEntry
history s = reverse s.entries

-- Loading keeps the newest entries, as many as fit.
pub reverse-drop_oldest :
    (cap : ℕ) (es : List UndoEntry) → reverse (drop_oldest cap es) ≡ take cap (reverse es)
unfolding drop_oldest
reverse-drop_oldest zero [] = refl
reverse-drop_oldest (suc cap) [] = refl
reverse-drop_oldest cap (x ∷ xs) = elim (dec_lt cap (length (x ∷ xs))) [
  | yes h ↦
      let over : ltb cap (length (x ∷ xs)) ≡ true = ground arith in
      rw over (
        reverse-drop_oldest cap xs
        ∙ sym (take-append cap (reverse xs) (x ∷ []) (omega (arith, length-reverse xs)))
        ∙ ap (take cap) (sym (reverse-cons x xs)))
  | no h ↦
      let fits : ltb cap (length (x ∷ xs)) ≡ false = ground arith in
      rw fits (sym (take-all cap (reverse (x ∷ xs)) (omega (arith, length-reverse (x ∷ xs)))))
]

pub pop_back-snoc : (es : List UndoEntry) (e : UndoEntry) → pop_back (es ++ (e ∷ [])) ≡ some (e, es)
unfolding pop_back
pop_back-snoc [] e = refl
pop_back-snoc (x ∷ xs) e = rw (pop_back-snoc xs e) refl

-- A list is empty or has a last element.
pub last-cases :
    (es : List UndoEntry)
    → (es ≡ []) ⊎ ((last : UndoEntry) × (rest : List UndoEntry) × (es ≡ rest ++ (last ∷ [])))
last-cases [] = inl refl
last-cases (x ∷ xs) = elim (last-cases xs) [
  | inl h ↦ inr (x, [], ap (λ t. x ∷ t) h)
  | inr (last, rest, h) ↦ inr (last, x ∷ rest, ap (λ t. x ∷ t) h)
]

pub record IsBounded (s : UndoStack) : Type 0 where
  pub positive : 0 < s.capacity
  pub fits : length s.entries ≤ s.capacity

-- The oldest entry makes room only on a full stack.
unfoldable pub make_room : ℕ → List UndoEntry → List UndoEntry
make_room cap es = if length es == cap then pop_front es else es

pub reverse-make_room :
    (cap : ℕ) (es : List UndoEntry)
    → length es ≤ suc cap
    → reverse (make_room (suc cap) es) ≡ take cap (reverse es)
unfolding make_room
reverse-make_room cap es h = elim (dec_lt (length es) (suc cap)) [
  | yes l ↦
      let free : (length es == suc cap) ≡ false = ground arith in
      rw free (sym (take-all cap (reverse es) (omega (arith, length-reverse es))))
  | no l ↦
      let full : (length es == suc cap) ≡ true = ground arith in
      rw full (pop_front-take es (omega arith))
]
  where
    pop_front-take :
        (xs : List UndoEntry) → length xs ≡ suc cap → reverse (pop_front xs) ≡ take cap (reverse xs)
    pop_front-take [] e = absurd (omega arith)
    pop_front-take (x ∷ xs) e =
        sym (take-all cap (reverse xs) (omega (arith, length-reverse xs)))
        ∙ sym (take-append cap (reverse xs) (x ∷ []) (omega (arith, length-reverse xs)))
        ∙ ap (take cap) (sym (reverse-cons x xs))
