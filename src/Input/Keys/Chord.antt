-- ===== src/Input/Keys/Chord.antt =====
-- The events that ydotool is told to make are properly nested.
use hypr_pilot.Prelude.{
  ℕ, ◌≡◌, refl, ap, sym, ◌∙◌, none, some, List, [], ◌∷◌, ◌++◌, map, reverse, Text, ok, Option,
  append_assoc, arith,
}
use mathlib.Core.List.{map-append, reverse-append}
use mathlib.Core.Path.{subst}
use hypr_pilot.Input.Keysyms.{keysym_to_evdev}
use hypr_pilot.Input.Keys.{
  KeyCombo, ydotool_keycode, press_token, release_token, ydotool_tokens, encode_ydotool_key,
}

-- The key is pressed and released while exactly the listed ones are held, and each of these is
-- released after all that were pressed later.
pub data Nested : List ℕ → ℕ → List Text → Type 0 where
  tap : (key : ℕ) → Nested [] key (press_token key ∷ release_token key ∷ [])
  around :
      {mods : List ℕ} {key : ℕ} {inner : List Text} (m : ℕ)
      → Nested mods key inner
      → Nested (m ∷ mods) key (press_token m ∷ (inner ++ release_token m ∷ []))

abbrev tokens : List ℕ → ℕ → List Text
tokens mods key =
    map press_token mods ++ (press_token key ∷ release_token key ∷ map release_token (reverse mods))

tokens-cons :
    (m : ℕ) (mods : List ℕ) (key : ℕ)
    → tokens (m ∷ mods) key ≡ press_token m ∷ (tokens mods key ++ release_token m ∷ [])
tokens-cons m mods key =
    let turned : map release_token (reverse (m ∷ mods))
        ≡ map release_token (reverse mods) ++ release_token m ∷ [] =
      ap (map release_token) (reverse-append (m ∷ []) mods)
      ∙ map-append release_token (reverse mods) (m ∷ []) in
    let pressed = map press_token mods in
    ap (λ t. press_token m ∷ (pressed ++ (press_token key ∷ release_token key ∷ t))) turned
    ∙ ap (λ t. press_token m ∷ t)
        (sym (
          append_assoc pressed
            (press_token key ∷ release_token key ∷ map release_token (reverse mods))
            (release_token m ∷ [])))

tokens-Nested : (mods : List ℕ) (key : ℕ) → Nested mods key (tokens mods key)
tokens-Nested [] key = tap key
tokens-Nested (m ∷ mods) key =
    subst (Nested (m ∷ mods) key) (sym (tokens-cons m mods key)) (around m (tokens-Nested mods key))

encoded :
    (c : KeyCombo) (o : Option ℕ)
    → keysym_to_evdev c.key ≡ o
    → {argv : List Text} → encode_ydotool_key c ≡ ok argv
    → (key : ℕ) × (keysym_to_evdev c.key ≡ some key) × (argv ≡ ydotool_tokens c key)
unfolding encode_ydotool_key
encoded c none e {argv} h = absurd (ground arith)
encoded c (some key) e {argv} h = (key, e, ground arith)

-- The events made for ydotool press and release the key while the modifiers of the combination are
-- held, and release each modifier after all that was pressed after it.
pub encode_ydotool_key-Nested :
    (c : KeyCombo) (argv : List Text)
    → encode_ydotool_key c ≡ ok argv
    → (key : ℕ) × (keysym_to_evdev c.key ≡ some key)
      × Nested (map ydotool_keycode c.modifiers) key argv
unfolding ydotool_tokens
encode_ydotool_key-Nested c argv h =
    let r = encoded c (keysym_to_evdev c.key) refl {argv = argv} h in
    let nested = tokens-Nested (map ydotool_keycode c.modifiers) r.0 in
    (r.0, r.1, subst (Nested (map ydotool_keycode c.modifiers) r.0) (sym r.2) nested)
