-- ===== src/Input/Keys/Spelling.antt =====
-- Reading combinations: the modifiers' names, by whatever alias, joined by `+`, and the key.
use hypr_pilot.Prelude.{
  ℕ, ◌≤◌, ◌≡◌, ◌≢◌, refl, ap, sym, ◌∙◌, Bool, false, ◌||◌, some, List, [], ◌∷◌, ◌++◌, map, any,
  length, Text, is_empty, is_whitespace, trim, trim_start, split, split-append, split-Lacks, Lacks,
  IsTrimmed, trim-IsTrimmed, trim_end-append, ok, Bool-cases, inl, inr, arith, ◌==◌, All, lowercase,
  codes, eq_text,
}
use hypr_pilot.Input.Keys.{
  Modifier, ctrl, shift, alt, super, ModifierSet, parse_modifier, insert_modifier, split_last,
  read_modifiers, read_parts, with_key, parse,
}
use hypr_pilot.Input.Keys.Sets.{Sorted, holds, insert_modifier-Sorted, holds-insert_modifier}

-- A part of a combination that is read as it stands.
pub record IsToken (t : Text) : Type 0 where
  pub trimmed : IsTrimmed t
  pub lacks : Lacks (λ c. c == b'+') t

-- The names are read as the modifiers.
abbrev pub Reads : List Text → List Modifier → Type 0
Reads [] [] = Unit
Reads (n ∷ ns) (m ∷ ms) = IsToken n × (parse_modifier n ≡ some m) × Reads ns ms
Reads _ _ = ⊥

-- The names and the key, joined by `+`.
abbrev pub spelled : List Text → Text → Text
spelled [] key = key
spelled (n ∷ ns) key = n ++ b'+' ∷ spelled ns key

trim_start-length : (p : ℕ → Bool) (s : Text) → length (trim_start p s) ≤ length s
unfolding trim_start
trim_start-length p [] = omega arith
trim_start-length p (c ∷ s) = ground (arith, trim_start-length p s)

trim_start_head : (p : ℕ → Bool) (c : ℕ) (s : Text) → trim_start p (c ∷ s) ≡ c ∷ s → p c ≡ false
trim_start_head p c s h = elim (Bool-cases (p c)) [
  | inl e ↦
      let skipped : trim_start p (c ∷ s) ≡ trim_start p s = unfold trim_start in rw e in
      absurd (omega (arith, trim_start-length p s, ap (length {A = ℕ}) (sym skipped ∙ h)))
  | inr e ↦ e
]

IsTrimmed-plus : (s t : Text) → IsTrimmed s → IsTrimmed t → IsTrimmed (s ++ b'+' ∷ t)
IsTrimmed-plus [] t hs ht = absurd (hs.nonempty refl)
IsTrimmed-plus (c ∷ s) t hs ht = record {
  nonempty = cc;
  left = unfold trim_start in rw (trim_start_head is_whitespace c s hs.left);
  right =
      trim_end-append is_whitespace (c ∷ s) (b'+' ∷ t) (cc)
        (trim_end-append is_whitespace (b'+' ∷ []) t ht.nonempty ht.right);
}

not_empty : (t : Text) → t ≢ [] → is_empty t ≡ false
not_empty [] n = absurd (n refl)
not_empty (c ∷ t) n = refl

last_of : (n : Text) (ns : List Text) (key : Text) → split_last n (ns ++ key ∷ []) ≡ (key, n ∷ ns)
unfolding split_last
last_of n [] key = refl
last_of n (x ∷ ns) key = rw (last_of x ns key)

spelled-IsTrimmed :
    (ns : List Text) (key : Text) → All IsToken ns → IsTrimmed key → IsTrimmed (spelled ns key)
spelled-IsTrimmed [] key h k = k
spelled-IsTrimmed (n ∷ ns) key h k =
    IsTrimmed-plus n (spelled ns key) h.0.trimmed (spelled-IsTrimmed ns key h.1 k)

split-spelled :
    (ns : List Text) (key : Text)
    → All IsToken ns
    → IsToken key
    → split b'+' (spelled ns key) ≡ ns ++ key ∷ []
split-spelled [] key h k = split-Lacks b'+' key k.lacks
split-spelled (n ∷ ns) key h k =
    split-append b'+' n (spelled ns key) h.0.lacks ∙ ap (λ t. n ∷ t) (split-spelled ns key h.1 k)

-- All parts are read as they stand, and none of them is empty.
parts-kept :
    (ns : List Text) (key : Text)
    → All IsToken ns
    → IsToken key
    → (map trim (ns ++ key ∷ []) ≡ ns ++ key ∷ []) × (any is_empty (ns ++ key ∷ []) ≡ false)
parts-kept [] key h k =
    (ap (λ t. t ∷ []) (trim-IsTrimmed k.trimmed), ground (arith, not_empty key k.trimmed.nonempty))
parts-kept (n ∷ ns) key h k =
    let rest = parts-kept ns key h.1 k in
    (
      (rw (trim-IsTrimmed h.0.trimmed, rest.0)),
      ground (arith, rest.1, not_empty n h.0.trimmed.nonempty),
    )

All-Reads : (ns : List Text) (ms : List Modifier) → Reads ns ms → All IsToken ns
All-Reads [] ms h = tt
All-Reads (n ∷ ns) [] h = absurd h
All-Reads (n ∷ ns) (m ∷ ms) h = (h.0, All-Reads ns ms h.2)

split_last-spelled :
    (ns : List Text) (key : Text) (trimmed : Text)
    → read_parts trimmed (ns ++ key ∷ []) ≡ with_key key (read_modifiers trimmed ns [])
unfolding read_parts
split_last-spelled [] key trimmed = unfold split_last in refl
split_last-spelled (n ∷ ns) key trimmed = rw (last_of n ns key)

-- Reading the names adds their modifiers to the set.
read_modifiers-Reads :
    (trimmed : Text) (ns : List Text) (ms : List Modifier) (acc : ModifierSet)
    → Reads ns ms
    → Sorted acc
    → (set : ModifierSet) × (read_modifiers trimmed ns acc ≡ ok set)
      × Sorted set
      × ((m : Modifier) → holds m set ≡ (holds m ms || holds m acc))
unfolding read_modifiers holds
read_modifiers-Reads trimmed [] [] acc h s = (acc, refl, s, λ m. refl)
read_modifiers-Reads trimmed [] (m ∷ ms) acc h s = absurd h
read_modifiers-Reads trimmed (n ∷ ns) [] acc h s = absurd h
read_modifiers-Reads trimmed (n ∷ ns) (m ∷ ms) acc h s =
    let r =
      read_modifiers-Reads trimmed ns ms (insert_modifier m acc) h.2
        (insert_modifier-Sorted m acc s) in
    (
      r.0,
      rw (h.1, read_modifiers) r.1,
      r.2,
      λ k. ground (arith, r.3 k, holds-insert_modifier k m acc),
    )

-- What stands after the trimming and the splitting of a combination.
pub parse-read_modifiers :
    (ns : List Text) (key : Text)
    → All IsToken ns
    → IsToken key
    → parse (spelled ns key) ≡ with_key key (read_modifiers (spelled ns key) ns [])
unfolding parse
parse-read_modifiers ns key h k =
    let whole = spelled-IsTrimmed ns key h k.trimmed in
    let kept = parts-kept ns key h k in
    rw
      (
        trim-IsTrimmed whole,
        not_empty (spelled ns key) whole.nonempty,
        split-spelled ns key h k,
        kept.0,
        kept.1,
      )
      (split_last-spelled ns key (spelled ns key))

-- Names that are read as modifiers, and the key, joined by `+`, are read as the key with these.
pub parse-joined :
    (ns : List Text) (ms : List Modifier) (key : Text)
    → Reads ns ms
    → IsToken key
    → (set : ModifierSet) × (parse (spelled ns key) ≡ ok (record { modifiers = set; key = key }))
      × Sorted set
      × ((m : Modifier) → holds m set ≡ holds m ms)
parse-joined ns ms key h k =
    let r = read_modifiers-Reads (spelled ns key) ns ms [] h tt in
    (
      r.0,
      parse-read_modifiers ns key (All-Reads ns ms h) k ∙ ap (with_key key) r.1,
      r.2,
      λ m. (unfold holds in ground (arith, r.3 m)),
    )

-- The names of a modifier, in lower case.
pub data Alias : Modifier → Text → Type 0 where
  is_ctrl : Alias ctrl (codes "ctrl")
  is_control : Alias ctrl (codes "control")
  is_shift : Alias shift (codes "shift")
  is_alt : Alias alt (codes "alt")
  is_meta : Alias alt (codes "meta")
  is_super : Alias super (codes "super")
  is_win : Alias super (codes "win")
  is_windows : Alias super (codes "windows")
  is_mod4 : Alias super (codes "mod4")
  is_cmd : Alias super (codes "cmd")
  is_command : Alias super (codes "command")

parse_modifier-Alias :
    (n : Text) {t : Text} {m : Modifier} → lowercase n ≡ t → Alias m t → parse_modifier n ≡ some m
unfolding parse_modifier eq_text
parse_modifier-Alias n e is_ctrl = rw e refl
parse_modifier-Alias n e is_control = rw e refl
parse_modifier-Alias n e is_shift = rw e refl
parse_modifier-Alias n e is_alt = rw e refl
parse_modifier-Alias n e is_meta = rw e refl
parse_modifier-Alias n e is_super = rw e refl
parse_modifier-Alias n e is_win = rw e refl
parse_modifier-Alias n e is_windows = rw e refl
parse_modifier-Alias n e is_mod4 = rw e refl
parse_modifier-Alias n e is_cmd = rw e refl
parse_modifier-Alias n e is_command = rw e refl

-- The names are aliases of the modifiers, in whatever case.
abbrev pub Spells : List Text → List Modifier → Type 0
Spells [] [] = Unit
Spells (n ∷ ns) (m ∷ ms) = IsToken n × Alias m (lowercase n) × Spells ns ms
Spells _ _ = ⊥

Spells-Reads : (ns : List Text) (ms : List Modifier) → Spells ns ms → Reads ns ms
Spells-Reads [] [] h = tt
Spells-Reads [] (m ∷ ms) h = absurd h
Spells-Reads (n ∷ ns) [] h = absurd h
Spells-Reads (n ∷ ns) (m ∷ ms) h = (h.0, parse_modifier-Alias n refl h.1, Spells-Reads ns ms h.2)

-- The eleven names of the modifiers (ctrl and control; shift; alt and meta; super, win, windows,
-- mod4, cmd and command), in any case, order and number, joined by `+` with a key at the end, are
-- read as that key with the modifiers named, sorted and without repetition, if the names and the
-- key have no white space at their ends, are not empty and hold no `+`.
pub parse-spelled :
    (ns : List Text) (ms : List Modifier) (key : Text)
    → Spells ns ms
    → IsToken key
    → (set : ModifierSet) × (parse (spelled ns key) ≡ ok (record { modifiers = set; key = key }))
      × Sorted set
      × ((m : Modifier) → holds m set ≡ holds m ms)
parse-spelled ns ms key h k = parse-joined ns ms key (Spells-Reads ns ms h) k
