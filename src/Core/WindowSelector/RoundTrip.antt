-- ===== src/Core/WindowSelector/RoundTrip.antt =====
-- Reading back the wire form of a window selector.
use hypr_pilot.Prelude.{
  inl, inr, ◌≡◌, refl, ◌++◌, codes, eq_text, starts_with, split_once, ok, InRange32,
  parse_i32-show_i32, if◌then◌else◌, Bool-cases,
}
use hypr_pilot.Core.WindowSelector.{
  WindowSelector, address, pid, class, title, tag, active, encode, parse,
}

-- The form in which a selector comes back: with the `0x` that `encode` adds to an address.
abbrev pub canonical : WindowSelector → WindowSelector
canonical (address a) = address (if starts_with (codes "0x") a then a else codes "0x" ++ a)
canonical s = s

-- A process id has 32 bits; the texts are arbitrary.
abbrev pub IsValid : WindowSelector → Type 0
IsValid (pid p) = InRange32 p
IsValid s = Unit

-- Parsing the wire form of any selector gives it back, an address with its 0x, if a process id has
-- 32 bits.
pub parse-encode : (s : WindowSelector) → IsValid s → parse (encode s) ≡ ok (canonical s)
unfolding parse encode eq_text split_once
parse-encode (address a) h = elim (Bool-cases (starts_with (codes "0x") a)) [
  | inl e ↦ rw e
  | inr e ↦ rw e
]
parse-encode (pid p) h = rw (parse_i32-show_i32 p h)
parse-encode (class c) h = refl
parse-encode (title t) h = refl
parse-encode (tag t) h = refl
parse-encode active h = refl
