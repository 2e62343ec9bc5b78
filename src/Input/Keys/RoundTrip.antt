-- ===== src/Input/Keys/RoundTrip.antt =====
-- Printing a combination and reading it back.
use hypr_pilot.Prelude.{
  ◌≡◌, refl, ap, sym, ◌∙◌, true, false, some, [], ◌∷◌, ◌++◌, map, Text, codes, is_whitespace,
  Lacks-of_all, Lacks-IsTrimmed, ok, err, arith, ◌==◌, append_assoc, All, lowercase, eq_text,
}
use hypr_pilot.Input.Keysyms.{is_one_of}
use hypr_pilot.Input.Keys.{
  Modifier, ctrl, shift, alt, super, ModifierSet, KeyCombo, parse_modifier, unknown_modifier,
  insert_modifier, read_modifiers, with_key, parse, wtype_name, show_modifiers, show,
}
use hypr_pilot.Input.Keys.Sets.{Sorted, Sorted-ext, holds, holds-cons}
use hypr_pilot.Input.Keys.Sound.{parse-IsRead}
use hypr_pilot.Input.Keys.Spelling.{IsToken, Reads, spelled, parse-joined, parse-read_modifiers}

wtype_name-IsToken : (m : Modifier) → IsToken (wtype_name m)
unfolding wtype_name is_whitespace
wtype_name-IsToken ctrl = record {
  trimmed = Lacks-IsTrimmed (cc) (Lacks-of_all is_whitespace (codes "ctrl") refl);
  lacks = Lacks-of_all (λ c. c == b'+') (codes "ctrl") refl;
}
wtype_name-IsToken shift = record {
  trimmed = Lacks-IsTrimmed (cc) (Lacks-of_all is_whitespace (codes "shift") refl);
  lacks = Lacks-of_all (λ c. c == b'+') (codes "shift") refl;
}
wtype_name-IsToken alt = record {
  trimmed = Lacks-IsTrimmed (cc) (Lacks-of_all is_whitespace (codes "alt") refl);
  lacks = Lacks-of_all (λ c. c == b'+') (codes "alt") refl;
}
wtype_name-IsToken super = record {
  trimmed = Lacks-IsTrimmed (cc) (Lacks-of_all is_whitespace (codes "logo") refl);
  lacks = Lacks-of_all (λ c. c == b'+') (codes "logo") refl;
}

-- Every name but that of `super` is read back.
parse_modifier-wtype_name :
    (m : Modifier) → holds super (m ∷ []) ≡ false → parse_modifier (wtype_name m) ≡ some m
unfolding parse_modifier wtype_name eq_text lowercase is_one_of
parse_modifier-wtype_name ctrl h = refl
parse_modifier-wtype_name shift h = refl
parse_modifier-wtype_name alt h = refl
parse_modifier-wtype_name super h = absurd (unfold holds in ground (arith, h))

show-spelled :
    (ms : ModifierSet) (key : Text) → show_modifiers ms ++ key ≡ spelled (map wtype_name ms) key
unfolding show_modifiers
show-spelled [] key = refl
show-spelled (m ∷ ms) key =
    append_assoc (wtype_name m) (b'+' ∷ show_modifiers ms) key
    ∙ ap (λ t. wtype_name m ++ b'+' ∷ t) (show-spelled ms key)

names-Reads : (ms : ModifierSet) → holds super ms ≡ false → Reads (map wtype_name ms) ms
names-Reads [] h = tt
names-Reads (m ∷ ms) h = (
  wtype_name-IsToken m,
  parse_modifier-wtype_name m (unfold holds in ground (arith, h)),
  names-Reads ms (ground (arith, h, holds-cons super m ms)),
)

-- A combination without `super` is read back.
parse-show :
    (c : KeyCombo)
    → Sorted c.modifiers
    → holds super c.modifiers ≡ false
    → IsToken c.key
    → parse (show c) ≡ ok c
unfolding show
parse-show c s h k =
    let r =
      parse-joined (map wtype_name c.modifiers) c.modifiers c.key (names-Reads c.modifiers h) k in
    let same = Sorted-ext r.0 c.modifiers r.2 s r.3 in
    ap parse (show-spelled c.modifiers c.key)
    ∙ r.1
    ∙ ap (λ ms. ok (record { modifiers = ms; key = c.key })) same

names-tokens : (ms : ModifierSet) → All IsToken (map wtype_name ms)
names-tokens [] = tt
names-tokens (m ∷ ms) = (wtype_name-IsToken m, names-tokens ms)

-- The reading stops at the name of `super`.
read_modifiers-super :
    (trimmed : Text) (ms acc : ModifierSet)
    → holds super ms ≡ true
    → read_modifiers trimmed (map wtype_name ms) acc ≡ err (unknown_modifier (codes "logo") trimmed)
unfolding read_modifiers parse_modifier wtype_name eq_text lowercase is_one_of
read_modifiers-super trimmed [] acc h = absurd (unfold holds in ground (arith, h))
read_modifiers-super trimmed (ctrl ∷ ms) acc h =
    read_modifiers-super trimmed ms (insert_modifier ctrl acc) (unfold holds in h)
read_modifiers-super trimmed (shift ∷ ms) acc h =
    read_modifiers-super trimmed ms (insert_modifier shift acc) (unfold holds in h)
read_modifiers-super trimmed (alt ∷ ms) acc h =
    read_modifiers-super trimmed ms (insert_modifier alt acc) (unfold holds in h)
read_modifiers-super trimmed (super ∷ ms) acc h = refl

parse-show_super :
    (c : KeyCombo)
    → holds super c.modifiers ≡ true
    → IsToken c.key
    → parse (show c) ≡ err (unknown_modifier (codes "logo") (show c))
unfolding show
parse-show_super c h k =
    let text = show-spelled c.modifiers c.key in
    ap parse text
    ∙ parse-read_modifiers (map wtype_name c.modifiers) c.key (names-tokens c.modifiers) k
    ∙ ap (with_key c.key)
        (read_modifiers-super (spelled (map wtype_name c.modifiers) c.key) c.modifiers [] h)
    ∙ ap (λ t. err (unknown_modifier (codes "logo") t)) (sym text)

-- A combination that was read from any text, and has no Super, is read back from its printed form.
pub parse-show_read :
    (s : Text) (c : KeyCombo)
    → parse s ≡ ok c
    → holds super c.modifiers ≡ false
    → parse (show c) ≡ ok c
parse-show_read s c h l = let r = parse-IsRead s c h in parse-show c r.sorted l r.token

-- A combination that was read and has Super is refused from its printed form, as `logo`.
parse-show_super_read :
    (s : Text) (c : KeyCombo)
    → parse s ≡ ok c
    → holds super c.modifiers ≡ true
    → parse (show c) ≡ err (unknown_modifier (codes "logo") (show c))
parse-show_super_read s c h l = let r = parse-IsRead s c h in parse-show_super c l r.token
