-- ===== src/Input/Keys/Sound.antt =====
-- Whatever text is read as a combination, its modifiers are ascending and its key can be printed.
use hypr_pilot.Prelude.{
  ℕ, ◌≡◌, refl, ap, sym, Bool, true, false, ◌&&◌, Option, none, some, List, [], ◌∷◌, map, any, Text,
  is_empty, is_whitespace, trim, trim_start, trim_end, split, cons_head, Lacks, Result, ok, err,
  ok-injective, Bool-cases, inl, inr, arith, ◌==◌, All, if◌then◌else◌,
}
use mathlib.Core.Path.{subst}
use hypr_pilot.Input.Error.{InputError}
use hypr_pilot.Input.Keys.{
  Modifier, ModifierSet, KeyCombo, parse_modifier, insert_modifier, split_last, read_modifiers,
  read_parts, with_key, parse,
}
use hypr_pilot.Input.Keys.Sets.{Sorted, insert_modifier-Sorted}
use hypr_pilot.Input.Keys.Spelling.{IsToken}

module _ (p : ℕ → Bool) where
  trim_end_again : (s : Text) → trim_end p (trim_end p s) ≡ trim_end p s
  unfolding trim_end
  trim_end_again [] = refl
  trim_end_again (c ∷ s) = ground (arith, trim_end_again s)

  trim_start-trim_end_kept :
      (c : ℕ) (s : Text) → p c ≡ false → trim_start p (trim_end p (c ∷ s)) ≡ trim_end p (c ∷ s)
  unfolding trim_start trim_end
  trim_start-trim_end_kept c s h = rw (h, trim_start) (rw h)

  trim_start-trim_end :
      (s : Text) → trim_start p (trim_end p (trim_start p s)) ≡ trim_end p (trim_start p s)
  trim_start-trim_end [] = unfold trim_start trim_end in refl
  trim_start-trim_end (c ∷ s) = elim (Bool-cases (p c)) [
    | inl e ↦
        let skipped : trim_start p (c ∷ s) ≡ trim_start p s = unfold trim_start in rw e in
        rw skipped (trim_start-trim_end s)
    | inr e ↦
        let kept : trim_start p (c ∷ s) ≡ c ∷ s = unfold trim_start in rw e in
        rw kept (trim_start-trim_end_kept c s e)
  ]

  Lacks-trim_start : (q : ℕ → Bool) (s : Text) → Lacks q s → Lacks q (trim_start p s)
  unfolding trim_start
  Lacks-trim_start q [] h = h
  Lacks-trim_start q (c ∷ s) h = elim (Bool-cases (p c)) [
    | inl e ↦ rw e (Lacks-trim_start q s h.1)
    | inr e ↦ rw e h
  ]

  Lacks-trim_end : (q : ℕ → Bool) (s : Text) → Lacks q s → Lacks q (trim_end p s)
  unfolding trim_end
  Lacks-trim_end q [] h = h
  Lacks-trim_end q (c ∷ s) h = elim (Bool-cases (p c && is_empty (trim_end p s))) [
    | inl e ↦ rw e tt
    | inr e ↦ rw e (h.0, Lacks-trim_end q s h.1)
  ]

trim-IsToken : (s : Text) → Lacks (λ c. c == b'+') s → is_empty (trim s) ≡ false → IsToken (trim s)
unfolding trim
trim-IsToken s l n = record {
  trimmed = record {
    nonempty = λ e. cc (ap (is_empty {A = ℕ}) e, n);
    left = trim_start-trim_end is_whitespace s;
    right = trim_end_again is_whitespace (trim_start is_whitespace s);
  };
  lacks =
      Lacks-trim_end is_whitespace (λ c. c == b'+') (trim_start is_whitespace s)
        (Lacks-trim_start is_whitespace (λ c. c == b'+') s l);
}

with_head :
    (sep c : ℕ) (ps : List Text)
    → (c == sep) ≡ false
    → All (Lacks (λ d. d == sep)) ps
    → All (Lacks (λ d. d == sep)) (cons_head c ps)
with_head sep c [] e h = ((e, tt), tt)
with_head sep c (p ∷ ps) e h = ((e, h.0), h.1)

split_parts : (sep : ℕ) (s : Text) → All (Lacks (λ c. c == sep)) (split sep s)
unfolding split
split_parts sep [] = (tt, tt)
split_parts sep (c ∷ s) = elim (Bool-cases (c == sep)) [
  | inl e ↦ rw e (tt, split_parts sep s)
  | inr e ↦ rw e (with_head sep c (split sep s) e (split_parts sep s))
]

trimmed_parts :
    (ps : List Text)
    → All (Lacks (λ c. c == b'+')) ps
    → any is_empty (map trim ps) ≡ false
    → All IsToken (map trim ps)
trimmed_parts [] l n = tt
trimmed_parts (p ∷ ps) l n =
    (trim-IsToken p l.0 (ground (arith, n)), trimmed_parts ps l.1 (ground (arith, n)))

split_last-All : (p : Text) (ps : List Text) → All IsToken (p ∷ ps) → IsToken (split_last p ps).0
unfolding split_last
split_last-All p [] h = h.0
split_last-All p (q ∷ qs) h = split_last-All q qs h.1

read_step :
    (trimmed m : Text) (ms : List Text) (acc set : ModifierSet) (o : Option Modifier)
    → parse_modifier m ≡ o
    → read_modifiers trimmed (m ∷ ms) acc ≡ ok set
    → (k : Modifier) × (read_modifiers trimmed ms (insert_modifier k acc) ≡ ok set)
unfolding read_modifiers
read_step trimmed m ms acc set none e h = absurd (ground arith)
read_step trimmed m ms acc set (some k) e h = (k, ground arith)

read_modifiers-Sorted :
    (trimmed : Text) (ms : List Text) (acc set : ModifierSet)
    → Sorted acc
    → read_modifiers trimmed ms acc ≡ ok set
    → Sorted set
unfolding read_modifiers
read_modifiers-Sorted trimmed [] acc set s h =
    subst Sorted (ok-injective {E = InputError} acc set h) s
read_modifiers-Sorted trimmed (m ∷ ms) acc set s h =
    let r = read_step trimmed m ms acc set (parse_modifier m) refl h in
    read_modifiers-Sorted trimmed ms (insert_modifier r.0 acc) set
      (insert_modifier-Sorted r.0 acc s) r.1

with_key-ok :
    (key : Text) (r : Result ModifierSet InputError) (c : KeyCombo)
    → with_key key r ≡ ok c
    → (r ≡ ok c.modifiers) × (c.key ≡ key)
with_key-ok key (ok ms) c h =
    let e = ok-injective _ c h in
    (ap (λ (x : KeyCombo). ok x.modifiers) e, ap (λ (x : KeyCombo). x.key) (sym e))
with_key-ok key (err e) c h = absurd (ground arith)

-- What a combination that was read looks like.
pub record IsRead (c : KeyCombo) : Type 0 where
  pub sorted : Sorted c.modifiers
  pub token : IsToken c.key

read_parts-IsRead :
    (trimmed : Text) (ps : List Text) (c : KeyCombo)
    → All IsToken ps
    → read_parts trimmed ps ≡ ok c
    → IsRead c
unfolding read_parts
read_parts-IsRead trimmed [] c t h = absurd (ground arith)
read_parts-IsRead trimmed (p ∷ ps) c t h =
    let r = with_key-ok (split_last p ps).0 (read_modifiers trimmed (split_last p ps).1 []) c h in
    record {
      sorted = read_modifiers-Sorted trimmed (split_last p ps).1 [] c.modifiers tt r.0;
      token = subst IsToken (sym r.1) (split_last-All p ps t);
    }

trim-IsRead :
    (t : Text) (c : KeyCombo) (blank gap : Bool)
    → any is_empty (map trim (split b'+' t)) ≡ gap
    → (d e : InputError)
    → ◌≡◌ {A = Result KeyCombo InputError}
        (if blank then err d else if gap then err e else read_parts t (map trim (split b'+' t)))
        (ok c)
    → IsRead c
trim-IsRead t c true gap g d e h = absurd (ground arith)
trim-IsRead t c false true g d e h = absurd (ground arith)
trim-IsRead t c false false g d e h =
    read_parts-IsRead t (map trim (split b'+' t)) c
      (trimmed_parts (split b'+' t) (split_parts b'+' t) g) h

-- What is read has ascending modifiers, and a key that is a part of its own.
pub parse-IsRead : (s : Text) (c : KeyCombo) → parse s ≡ ok c → IsRead c
unfolding parse
parse-IsRead s c h =
    trim-IsRead (trim s) c (is_empty (trim s)) (any is_empty (map trim (split b'+' (trim s)))) refl
      _ _ h
