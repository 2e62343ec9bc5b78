-- ===== src/Prelude/Lists.antt =====
-- Lists measured and indexed by native numbers, Rust's iterator adaptors with Boolean tests, and
-- predicates on all elements.
use Prim.Native.Nat.{ℕ, zero, suc, ◌+◌, ◌≤◌}
use mathlib.Core.Path.{◌≡◌, refl, sym, ap, ◌∙◌}
use mathlib.Core.Bool.{Bool, true, false, ◌&&◌, ◌||◌}
use mathlib.Core.List.{List, [], ◌∷◌, ◌++◌, map}
use mathlib.Core.Option.{Option, none, some, some-injective}
use native.Mathlib.Omega.{arith}
use mathlib.Core.Logic.{◌⊎◌, inl, inr}
use hypr_pilot.Prelude.Tests.{if◌then◌else◌, Bool-cases}

module _ {ℓ} {A : Type ℓ} where
  abbrev pub length : List A → ℕ
  length [] = 0
  length (x ∷ xs) = suc (length xs)

  abbrev pub get_elem? : List A → ℕ → Option A
  get_elem? [] i = none
  get_elem? (x ∷ xs) zero = some x
  get_elem? (x ∷ xs) (suc i) = get_elem? xs i

  -- `iter().filter(p)`
  abbrev pub filter : (A → Bool) → List A → List A
  filter p [] = []
  filter p (x ∷ xs) = if p x then x ∷ filter p xs else filter p xs

  -- `iter().find(p)`
  abbrev pub find : (A → Bool) → List A → Option A
  find p [] = none
  find p (x ∷ xs) = if p x then some x else find p xs

  abbrev pub any : (A → Bool) → List A → Bool
  any p [] = false
  any p (x ∷ xs) = p x || any p xs

  abbrev pub all : (A → Bool) → List A → Bool
  all p [] = true
  all p (x ∷ xs) = p x && all p xs

  pub length-append : (xs ys : List A) → length (xs ++ ys) ≡ length xs + length ys
  length-append [] ys = omega arith
  length-append (x ∷ xs) ys = omega (arith, length-append xs ys)

  pub length-filter-le : (p : A → Bool) (xs : List A) → length (filter p xs) ≤ length xs
  length-filter-le p [] = omega arith
  length-filter-le p (x ∷ xs) = ground (arith, length-filter-le p xs)

  pub filter-append :
      (p : A → Bool) (xs ys : List A) → filter p (xs ++ ys) ≡ filter p xs ++ filter p ys
  filter-append p [] ys = refl
  filter-append p (x ∷ xs) ys = ground (arith, filter-append p xs ys)

  pub find-holds : (p : A → Bool) (xs : List A) {x : A} → find p xs ≡ some x → p x ≡ true
  find-holds p [] h = ground arith
  find-holds p (y ∷ xs) {x} h = ground (arith, find-holds p xs {x = x})

module _ {ℓ κ} {A : Type ℓ} (P : A → Type κ) where
  abbrev pub All : List A → Type κ
  All [] = Unit
  All (x ∷ xs) = P x × All xs

  pub All-append : (xs ys : List A) → All xs → All ys → All (xs ++ ys)
  All-append [] ys hx hy = hy
  All-append (x ∷ xs) ys hx hy = (hx.0, All-append xs ys hx.1 hy)

module _ {ℓ} {A : Type ℓ} where
  -- A filter's elements pass its test.
  pub All-filter : (p : A → Bool) (xs : List A) → All (λ x. p x ≡ true) (filter p xs)
  All-filter p [] = tt
  All-filter p (x ∷ xs) = elim (Bool-cases (p x)) [
    | inl e ↦ rw e (e, All-filter p xs)
    | inr e ↦ rw e (All-filter p xs)
  ]

module _ {ℓ κ} {A : Type ℓ} (P : A → Type κ) where
  pub All-filter_keeps : (q : A → Bool) (xs : List A) → All P xs → All P (filter q xs)
  All-filter_keeps q [] h = tt
  All-filter_keeps q (x ∷ xs) h = elim (Bool-cases (q x)) [
    | inl e ↦ rw e (h.0, All-filter_keeps q xs h.1)
    | inr e ↦ rw e (All-filter_keeps q xs h.1)
  ]

  -- If there is a value, it has the property.
  abbrev pub Every : Option A → Type κ
  Every none = Unit
  Every (some x) = P x

  pub find-Every : (q : A → Bool) (xs : List A) → All P xs → Every (find q xs)
  find-Every q [] h = tt
  find-Every q (x ∷ xs) h = elim (Bool-cases (q x)) [
    | inl e ↦ rw e h.0
    | inr e ↦ rw e (find-Every q xs h.1)
  ]

module _ {ℓ} {A : Type ℓ} where
  -- What is found passes the test.
  pub find-Every_holds : (q : A → Bool) (xs : List A) → Every (λ x. q x ≡ true) (find q xs)
  find-Every_holds q [] = tt
  find-Every_holds q (x ∷ xs) = elim (Bool-cases (q x)) [
    | inl e ↦ rw e e
    | inr e ↦ rw e (find-Every_holds q xs)
  ]

-- The element stands in the list.
abbrev pub Among : {A : Type 0} → A → List A → Type 0
Among a [] = ⊥
Among a (x ∷ xs) = (x ≡ a) ⊎ Among a xs

pub map-Among :
    {A B : Type 0} (f : A → B) (a : A) (xs : List A) → Among a xs → Among (f a) (map f xs)
map-Among f a [] m = absurd m
map-Among f a (x ∷ xs) (inl e) = inl (ap f e)
map-Among f a (x ∷ xs) (inr m) = inr (map-Among f a xs m)

-- An element of a mapped list comes from an element of the list.
pub Among-map :
    {A B : Type 0} (f : A → B) (b : B) (xs : List A)
    → Among b (map f xs)
    → (a : A) × Among a xs × (f a ≡ b)
Among-map f b [] m = absurd m
Among-map f b (x ∷ xs) (inl e) = (x, inl refl, e)
Among-map f b (x ∷ xs) (inr m) = let r = Among-map f b xs m in (r.0, inr r.1, r.2)

module _ {A : Type 0} (p : A → Bool) where
  pub filter-Among : (a : A) (xs : List A) → Among a xs → p a ≡ true → Among a (filter p xs)
  filter-Among a [] m e = absurd m
  filter-Among a (x ∷ xs) (inl same) e = rw (ap p same ∙ e) (inl same)
  filter-Among a (x ∷ xs) (inr m) e = elim (Bool-cases (p x)) [
    | inl t ↦ rw t (inr (filter-Among a xs m e))
    | inr f ↦ rw f (filter-Among a xs m e)
  ]

  -- One element in front of a filtered list.
  unfilter :
      (a x : A) (xs : List A) (b : Bool)
      → p x ≡ b
      → (Among a (filter p xs) → Among a xs × (p a ≡ true))
      → Among a (if b then x ∷ filter p xs else filter p xs)
      → Among a (x ∷ xs) × (p a ≡ true)
  unfilter a x xs true e rest (inl same) = (inl same, ap p (sym same) ∙ e)
  unfilter a x xs true e rest (inr m) = let r = rest m in (inr r.0, r.1)
  unfilter a x xs false e rest m = let r = rest m in (inr r.0, r.1)

  pub Among-filter : (a : A) (xs : List A) → Among a (filter p xs) → Among a xs × (p a ≡ true)
  Among-filter a [] m = absurd m
  Among-filter a (x ∷ xs) m = unfilter a x xs (p x) refl (Among-filter a xs) m

  unfind :
      (a x : A) (xs : List A) (b : Bool)
      → (find p xs ≡ some a → Among a xs)
      → (if b then some x else find p xs) ≡ some a
      → Among a (x ∷ xs)
  unfind a x xs true rest h = inl (some-injective x a h)
  unfind a x xs false rest h = inr (rest h)

  pub find-Among : (a : A) (xs : List A) → find p xs ≡ some a → Among a xs
  find-Among a [] h = absurd (ground arith)
  find-Among a (x ∷ xs) h = unfind a x xs (p x) (find-Among a xs) h
