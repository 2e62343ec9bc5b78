-- ===== src/Core/Snapshot/Names.antt =====
-- Which names a snapshot may have.
use mathlib.Core.Path.{subst}
use hypr_pilot.Prelude.{
  ==_iff, ◌==◌, ℕ, ◌≤◌, ◌<◌, ◌≡◌, ◌≢◌, refl, ap, ◌↔◌, true, false, [], ◌∷◌, length, all, Bool-cases,
  inl, inr, and-both, ◌⊎◌, Text, codes, starts_with, strip_prefix, ltb, ok, arith, All,
}
use hypr_pilot.Core.Snapshot.{is_name_char, len_utf8, byte_length, validate_name}

-- A letter, a digit, `_`, `-` or `.`.
pub data NameChar (c : ℕ) : Type 0 where
  lower : b'a' ≤ c → c ≤ b'z' → NameChar c
  upper : b'A' ≤ c → c ≤ b'Z' → NameChar c
  digit : b'0' ≤ c → c ≤ b'9' → NameChar c
  underscore : c ≡ b'_' → NameChar c
  dash : c ≡ b'-' → NameChar c
  dot : c ≡ b'.' → NameChar c

-- A name of 1 to 128 such characters that does not start with `.`.
pub record IsName (name : Text) : Type 0 where
  pub chars : All NameChar name
  pub nonempty : 0 < length name
  pub short : length name ≤ 128
  pub visible : (rest : Text) → name ≢ b'.' ∷ rest

char-cases :
    (c : ℕ)
    → is_name_char c ≡ true
    → ((b'a' ≤ c) × (c ≤ b'z'))
      ⊎ ((b'A' ≤ c) × (c ≤ b'Z'))
      ⊎ ((b'0' ≤ c) × (c ≤ b'9'))
      ⊎ (c ≡ b'_')
      ⊎ (c ≡ b'-')
      ⊎ (c ≡ b'.')
unfolding is_name_char
char-cases c h = ground arith

NameChar-of_test : (c : ℕ) → is_name_char c ≡ true → NameChar c
NameChar-of_test c h = elim (char-cases c h) [
  | inl (l, l') ↦ lower l l'
  | inr (inl (u, u')) ↦ upper u u'
  | inr (inr (inl (d, d'))) ↦ digit d d'
  | inr (inr (inr (inl e))) ↦ underscore e
  | inr (inr (inr (inr (inl e)))) ↦ dash e
  | inr (inr (inr (inr (inr e)))) ↦ dot e
]

test-of_NameChar : (c : ℕ) → NameChar c → is_name_char c ≡ true
unfolding is_name_char
test-of_NameChar c (lower a b) = ground arith
test-of_NameChar c (upper a b) = ground arith
test-of_NameChar c (digit a b) = ground arith
test-of_NameChar c (underscore e) = ground arith
test-of_NameChar c (dash e) = ground arith
test-of_NameChar c (dot e) = ground arith

NameChar-ascii : (c : ℕ) → NameChar c → len_utf8 c ≡ 1
unfolding len_utf8
NameChar-ascii c (lower a b) = ground arith
NameChar-ascii c (upper a b) = ground arith
NameChar-ascii c (digit a b) = ground arith
NameChar-ascii c (underscore e) = ground arith
NameChar-ascii c (dash e) = ground arith
NameChar-ascii c (dot e) = ground arith

All-of_all : (name : Text) → all is_name_char name ≡ true → All NameChar name
All-of_all [] h = tt
All-of_all (c ∷ s) h =
    let r = and-both (is_name_char c) (all is_name_char s) h in
    (NameChar-of_test c r.0, All-of_all s r.1)

all-of_All : (name : Text) → All NameChar name → all is_name_char name ≡ true
all-of_All [] h = refl
all-of_All (c ∷ s) h = rw (test-of_NameChar c h.0) (all-of_All s h.1)

-- The names are ASCII, so their bytes are their characters.
byte_length-ascii : (name : Text) → All NameChar name → byte_length name ≡ length name
unfolding byte_length
byte_length-ascii [] h = refl
byte_length-ascii (c ∷ s) h = omega (arith, NameChar-ascii c h.0, byte_length-ascii s h.1)

not_hidden : (s : Text) → starts_with (codes ".") s ≡ false → (rest : Text) → s ≢ b'.' ∷ rest
not_hidden [] h rest e = ground arith
not_hidden (c ∷ s) h rest e =
    let t : starts_with (codes ".") (b'.' ∷ rest) ≡ true =
      unfold starts_with strip_prefix in refl in
    let f : starts_with (codes ".") (b'.' ∷ rest) ≡ false =
      subst (λ (x : Text). starts_with (codes ".") x ≡ false) e h in
    absurd (ground (arith, t, f))

hidden-false : (s : Text) → ((rest : Text) → s ≢ b'.' ∷ rest) → starts_with (codes ".") s ≡ false
hidden-false [] h = unfold starts_with strip_prefix in refl
hidden-false (c ∷ s) h = elim (Bool-cases (c == b'.')) [
  | inl e ↦ absurd (h s (ap (λ t. t ∷ s) ((==_iff c b'.').0 e)))
  | inr e ↦ unfold starts_with strip_prefix in (ground (arith, e))
]

byte_short : (n : ℕ) → ltb 128 n ≡ false → n ≤ 128
byte_short n h = ground arith

IsName-of_ok : (name : Text) → validate_name name ≡ ok tt → IsName name
unfolding validate_name
IsName-of_ok [] h = absurd (ground arith)
IsName-of_ok (c ∷ s) h =
    let a = All-of_all (c ∷ s) (ground arith) in
    record {
      chars = a;
      nonempty = omega arith;
      short =
          omega
            (arith, byte_length-ascii (c ∷ s) a, byte_short (byte_length (c ∷ s)) (ground arith));
      visible = not_hidden (c ∷ s) (ground arith);
    }

ok-of_IsName : (name : Text) → IsName name → validate_name name ≡ ok tt
unfolding validate_name
ok-of_IsName [] v = absurd (omega (arith, v.nonempty))
ok-of_IsName (c ∷ s) v =
    let short : ltb 128 (byte_length (c ∷ s)) ≡ false =
      ground (arith, byte_length-ascii (c ∷ s) v.chars, v.short) in
    rw (short, all-of_All (c ∷ s) v.chars, hidden-false (c ∷ s) v.visible) refl

-- A snapshot name is accepted exactly when it has 1 to 128 characters, all letters, digits, `_`,
-- `-` or `.`, and does not start with `.`.
pub validate_name-ok_iff : (name : Text) → (validate_name name ≡ ok tt) ↔ IsName name
validate_name-ok_iff name = (IsName-of_ok name, ok-of_IsName name)
