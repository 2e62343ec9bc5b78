-- ===== src/Input/Keysyms.antt =====
-- crates/hyprpilot-input/src/keys.rs, `keysym_to_evdev`: the Linux input-event code of a key.
use hypr_pilot.Prelude.{
  ℕ, ◌+◌, ◌-◌, Bool, ◌&&◌, Option, none, some, List, [], ◌∷◌, any, get_elem?, Text, codes, eq_text,
  lowercase, to_lower, ltb, leb, ◌==◌, if◌then◌else◌,
}

-- One of the texts.
unfoldable pub is_one_of : List Text → Text → Bool
is_one_of names s = any (λ n. eq_text n s) names

-- The letters' codes, from `a` to `z`.
abbrev pub letter_codes : List ℕ
letter_codes =
    30 ∷ 48 ∷ 46 ∷ 32 ∷ 18 ∷ 33 ∷ 34 ∷ 35 ∷ 23 ∷ 36 ∷ 37 ∷ 38 ∷ 50 ∷ 49 ∷ 24 ∷ 25 ∷ 16 ∷ 19 ∷ 31
    ∷ 20 ∷ 22 ∷ 47 ∷ 17 ∷ 45 ∷ 21 ∷ 44 ∷ []

-- The arms of the match on a named key.
abbrev pub named_keys : List (List Text × ℕ)
named_keys =
    (codes "return" ∷ codes "enter" ∷ codes "kp_enter" ∷ [], 28)
    ∷ (codes "space" ∷ [], 57)
    ∷ (codes "tab" ∷ [], 15)
    ∷ (codes "escape" ∷ codes "esc" ∷ [], 1)
    ∷ (codes "backspace" ∷ [], 14)
    ∷ (codes "delete" ∷ codes "del" ∷ [], 111)
    ∷ (codes "insert" ∷ codes "ins" ∷ [], 110)
    ∷ (codes "home" ∷ [], 102)
    ∷ (codes "end" ∷ [], 107)
    ∷ (codes "page_up" ∷ codes "pageup" ∷ codes "prior" ∷ [], 104)
    ∷ (codes "page_down" ∷ codes "pagedown" ∷ codes "next" ∷ [], 109)
    ∷ (codes "up" ∷ [], 103)
    ∷ (codes "down" ∷ [], 108)
    ∷ (codes "left" ∷ [], 105)
    ∷ (codes "right" ∷ [], 106)
    ∷ (codes "minus" ∷ [], 12)
    ∷ (codes "equal" ∷ [], 13)
    ∷ (codes "comma" ∷ [], 51)
    ∷ (codes "period" ∷ codes "dot" ∷ [], 52)
    ∷ (codes "slash" ∷ [], 53)
    ∷ (codes "semicolon" ∷ [], 39)
    ∷ (codes "apostrophe" ∷ [], 40)
    ∷ (codes "grave" ∷ [], 41)
    ∷ (codes "bracketleft" ∷ [], 26)
    ∷ (codes "bracketright" ∷ [], 27)
    ∷ (codes "backslash" ∷ [], 43)
    ∷ (codes "f1" ∷ [], 59)
    ∷ (codes "f2" ∷ [], 60)
    ∷ (codes "f3" ∷ [], 61)
    ∷ (codes "f4" ∷ [], 62)
    ∷ (codes "f5" ∷ [], 63)
    ∷ (codes "f6" ∷ [], 64)
    ∷ (codes "f7" ∷ [], 65)
    ∷ (codes "f8" ∷ [], 66)
    ∷ (codes "f9" ∷ [], 67)
    ∷ (codes "f10" ∷ [], 68)
    ∷ (codes "f11" ∷ [], 87)
    ∷ (codes "f12" ∷ [], 88)
    ∷ []

unfoldable pub named_code : List (List Text × ℕ) → Text → Option ℕ
unfolding is_one_of
named_code [] s = none
named_code ((names, c) ∷ rest) s = if is_one_of names s then some c else named_code rest s

-- A key of one byte: a letter or a digit, of which the case does not count.
unfoldable pub char_code : ℕ → Option ℕ
char_code c =
    let l = to_lower c in
    if leb b'a' l && leb l b'z'
    then get_elem? letter_codes (l - b'a')
    else if leb b'0' l && leb l b'9'
    then some (if l == b'0' then 11 else l - b'1' + 2)
    else none

-- A text of one byte is one character below 128.
unfoldable pub one_byte : Text → Option ℕ
one_byte (c ∷ []) = if ltb c 128 then some c else none
one_byte s = none

unfoldable pub keysym_to_evdev : Text → Option ℕ
unfolding one_byte char_code named_code
keysym_to_evdev key =
    let named = named_code named_keys (lowercase key) in
    elim (one_byte key) [
      | none ↦ named
      | some c ↦ elim (char_code c) [ none ↦ named | some k ↦ some k ]
    ]
