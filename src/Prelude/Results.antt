-- ===== src/Prelude/Results.antt =====
-- Rust's `Result`, its `?` as bind, and what the program uses of `Option`.
use mathlib.Core.Path.{◌≡◌, refl, ap}
use native.Mathlib.Omega.{arith}
use hypr_pilot.Prelude.Tests.{if◌then◌else◌}
use mathlib.Core.Bool.{Bool, true, false}
use mathlib.Core.Option.{Option, none, some}

pub data Result {ℓ} (A E : Type ℓ) : Type ℓ where
  ok : A → Result A E
  err : E → Result A E

infixl 5 ◌>>=◌ ◌>>◌
abbrev pub ◌>>=◌ {ℓ} : {A B E : Type ℓ} → Result A E → (A → Result B E) → Result B E
ok a >>= f = f a
err e >>= f = err e

abbrev pub ◌>>◌ {ℓ} : {A B E : Type ℓ} → Result A E → Result B E → Result B E
m >> k = m >>= λ _. k

-- `.map_err(f)`
abbrev pub map_err {ℓ} : {A D E : Type ℓ} → (E → D) → Result A E → Result A D
map_err f (ok a) = ok a
map_err f (err e) = err (f e)

-- `.map(f)`
abbrev pub map_ok {ℓ} : {A B E : Type ℓ} → (A → B) → Result A E → Result B E
map_ok f (ok a) = ok (f a)
map_ok f (err e) = err e

abbrev pub is_ok {ℓ} : {A E : Type ℓ} → Result A E → Bool
is_ok (ok a) = true
is_ok (err e) = false

abbrev pub is_some {ℓ} : {A : Type ℓ} → Option A → Bool
is_some none = false
is_some (some a) = true

-- `.or_else(…)`, `.or(…)`
abbrev pub or_option {ℓ} : {A : Type ℓ} → Option A → Option A → Option A
or_option none o = o
or_option (some a) o = some a

pub ok-injective : {A E : Type 0} (a b : A) → ◌≡◌ {A = Result A E} (ok a) (ok b) → a ≡ b
ok-injective {A} {E} a b h =
    let value : Result A E → A = λ r. elim r [ ok x ↦ x | err e ↦ a ] in ap value h

-- A value under a test: the test holds, and the value is the result.
pub guarded-ok :
    {A E : Type 0} (test : Bool) (a b : A) (e : E)
    → ◌≡◌ {A = Result A E} (if test then ok a else err e) (ok b)
    → (a ≡ b) × (test ≡ true)
guarded-ok true a b e h = (ok-injective a b h, refl)
guarded-ok false a b e h = absurd (ground arith)

-- A successful bind has a successful first part.
pub bind-ok {ℓ} :
    {A B E : Type ℓ} (m : Result A E) (f : A → Result B E) (b : B)
    → (m >>= f) ≡ ok b
    → (a : A) × (m ≡ ok a) × (f a ≡ ok b)
bind-ok (ok a) f b h = (a, refl, h)
bind-ok (err e) f b h = absurd (ground arith)
