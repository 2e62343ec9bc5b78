-- ===== src/Input/Keys/Sets.antt =====
-- The `BTreeSet` of modifiers: ascending, and what an insertion adds.
use hypr_pilot.Prelude.{
  ◌≡◌, sym, ◌≤◌, ◌<◌, refl, ◌∙◌, Bool, true, false, ◌||◌, List, [], ◌∷◌, ◌++◌, any, All, ltb, ◌==◌,
  Bool-cases, inl, inr, arith,
}
use hypr_pilot.Input.Keys.{Modifier, rank, ModifierSet, insert_modifier}

abbrev pub Sorted : ModifierSet → Type 0
Sorted [] = Unit
Sorted (m ∷ ms) = All (λ (n : Modifier). rank m < rank n) ms × Sorted ms

-- The set holds the modifier.
unfoldable pub holds : Modifier → List Modifier → Bool
unfolding rank
holds m ms = any (λ n. rank n == rank m) ms

All-lt :
    (m n : Modifier) (ms : ModifierSet)
    → rank m < rank n
    → All (λ (x : Modifier). rank n < rank x) ms
    → All (λ (x : Modifier). rank m < rank x) ms
All-lt m n [] h a = tt
All-lt m n (x ∷ xs) h a = (omega arith, All-lt m n xs h a.1)

insert-above :
    (k m : Modifier) (ms : ModifierSet)
    → rank k < rank m
    → All (λ (x : Modifier). rank k < rank x) ms
    → All (λ (x : Modifier). rank k < rank x) (insert_modifier m ms)
unfolding insert_modifier
insert-above k m [] h a = (h, tt)
insert-above k m (n ∷ ns) h a = elim (Bool-cases (ltb (rank m) (rank n))) [
  | inl e ↦ rw e (h, a)
  | inr e ↦ rw e (elim (Bool-cases (rank m == rank n)) [
    | inl s ↦ rw s a
    | inr s ↦ rw s (a.0, insert-above k m ns h a.1)
  ])
]

pub insert_modifier-Sorted :
    (m : Modifier) (ms : ModifierSet) → Sorted ms → Sorted (insert_modifier m ms)
unfolding insert_modifier
insert_modifier-Sorted m [] s = (tt, tt)
insert_modifier-Sorted m (n ∷ ns) s = elim (Bool-cases (ltb (rank m) (rank n))) [
  | inl e ↦
      rw e (let below : rank m < rank n = ground arith in ((below, All-lt m n ns below s.0), s))
  | inr e ↦ rw e (elim (Bool-cases (rank m == rank n)) [
    | inl same ↦ rw same s
    | inr other ↦ rw other (insert-above n m ns (ground arith) s.0, insert_modifier-Sorted m ns s.1)
  ])
]

pub holds-insert_modifier :
    (k m : Modifier) (ms : ModifierSet)
    → holds k (insert_modifier m ms) ≡ (rank m == rank k || holds k ms)
unfolding insert_modifier holds
holds-insert_modifier k m [] = refl
holds-insert_modifier k m (n ∷ ns) = ground (arith, holds-insert_modifier k m ns)

-- A modifier above all of the set goes to its end.
pub insert_modifier-last :
    (m : Modifier) (ms : ModifierSet)
    → All (λ (x : Modifier). rank x < rank m) ms
    → insert_modifier m ms ≡ ms ++ m ∷ []
unfolding insert_modifier
insert_modifier-last m [] a = refl
insert_modifier-last m (n ∷ ns) a =
    let high : ltb (rank m) (rank n) ≡ false = ground arith in
    let other : (rank m == rank n) ≡ false = ground arith in
    rw (high, other, insert_modifier-last m ns a.1)

pub eq-of_rank : (m n : Modifier) → rank m ≡ rank n → m ≡ n
unfolding rank
eq-of_rank m n h = ground arith

cons_eq : {x y : Modifier} {xs ys : ModifierSet} → x ≡ y → xs ≡ ys → x ∷ xs ≡ y ∷ ys
cons_eq p q = cc

-- A modifier of a list that stands above `k` is above `k`.
holds-above :
    (k m : Modifier) (ms : ModifierSet)
    → All (λ (x : Modifier). rank k < rank x) ms
    → holds m ms ≡ true
    → rank k < rank m
unfolding holds
holds-above k m [] a h = absurd (ground arith)
holds-above k m (n ∷ ns) a h = elim (Bool-cases (rank n == rank m)) [
  | inl e ↦ ground arith
  | inr e ↦ holds-above k m ns a.1 (ground arith)
]

pub holds_head : (m : Modifier) (ms : ModifierSet) → holds m (m ∷ ms) ≡ true
unfolding holds
holds_head m ms = ground arith

pub holds-cons :
    (m n : Modifier) (ms : ModifierSet) → holds m (n ∷ ms) ≡ (rank n == rank m || holds m ms)
unfolding holds
holds-cons m n ms = refl

-- The first of an ascending list is the least of it.
holds-le :
    (m n : Modifier) (ns : ModifierSet)
    → Sorted (n ∷ ns)
    → holds m (n ∷ ns) ≡ true
    → rank n ≤ rank m
holds-le m n ns s h = elim (Bool-cases (rank n == rank m)) [
  | inl e ↦ ground arith
  | inr e ↦
      let below : rank n < rank m = holds-above n m ns s.0 (ground (arith, holds-cons m n ns)) in
      omega arith
]

-- Below the whole list, a modifier is not held.
holds-below :
    (m n : Modifier) (ns : ModifierSet)
    → rank m ≡ rank n
    → All (λ (x : Modifier). rank n < rank x) ns
    → holds m ns ≡ false
holds-below m n ns e a = elim (Bool-cases (holds m ns)) [
  | inl h ↦ let k = holds-above n m ns a h in absurd (omega arith)
  | inr h ↦ h
]

-- Two sets that hold the same modifiers are the same list.
pub Sorted-ext :
    (xs ys : ModifierSet)
    → Sorted xs
    → Sorted ys
    → ((m : Modifier) → holds m xs ≡ holds m ys)
    → xs ≡ ys
Sorted-ext [] [] s t h = refl
Sorted-ext [] (y ∷ ys) s t h = let k = h y in absurd (unfold holds in ground (arith, k))
Sorted-ext (x ∷ xs) [] s t h = let k = h x in absurd (unfold holds in ground (arith, k))
Sorted-ext (x ∷ xs) (y ∷ ys) s t h =
    let low = holds-le y x xs s (h y ∙ holds_head y ys) in
    let high = holds-le x y ys t (sym (h x) ∙ holds_head x xs) in
    let same : x ≡ y = eq-of_rank x y (omega arith) in
    let tail : (m : Modifier) → holds m xs ≡ holds m ys = λ m.
      elim (Bool-cases (rank x == rank m)) [
        | inl e ↦
            holds-below m x xs (ground arith) s.0 ∙ sym (holds-below m y ys (ground arith) t.0)
        | inr e ↦ ground (arith, h m, holds-cons m x xs, holds-cons m y ys)
      ] in
    cons_eq same (Sorted-ext xs ys s.1 t.1 tail)
