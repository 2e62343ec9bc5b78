-- ===== src/Daemon/Binds/Chords.antt =====
-- Which modifiers a bind wants, against the bit mask that Hyprland reports.
use hypr_pilot.Prelude.{
  ℕ, ◌≡◌, refl, ap, sym, ◌∙◌, ◌↔◌, Bool, true, false, not, ◌&&◌, ◌||◌, Option, List, [], ◌∷◌, ◌++◌,
  map, any, all, Text, eq_text, eq_text_iff, lowercase, and-both, Bool-cases, inl, inr, arith, ◌==◌,
}
use hypr_pilot.Core.Types.{Bind, decode_mods, has_bit, mod_name}
use hypr_pilot.Input.Keys.{
  KeyCombo, Modifier, ctrl, shift, alt, super, ModifierSet, hyprctl_name, rank,
}
use hypr_pilot.Input.Keys.Sets.{holds, holds_head, holds-cons}
use hypr_pilot.Daemon.Binds.{is_member, same_set, submap_ok, bind_matches, combo_mod_set}

-- The bit of a modifier in Hyprland's mask.
abbrev pub bit : Modifier → ℕ
bit shift = 1
bit ctrl = 4
bit alt = 8
bit super = 64

-- The mask has the bits of these modifiers, and of the four no other.
abbrev pub Wants : ℕ → ModifierSet → Type 0
Wants mask ms = (m : Modifier) → has_bit (bit m) mask ≡ holds m ms

same_name : (n m : Modifier) → eq_text (hyprctl_name n) (hyprctl_name m) ≡ (rank n == rank m)
unfolding hyprctl_name eq_text rank
same_name ctrl m = ground arith
same_name shift m = ground arith
same_name alt m = ground arith
same_name super m = ground arith

-- The names' order and repetition do not count.
is_member-names :
    (ms : ModifierSet) (m : Modifier)
    → is_member (map hyprctl_name ms) (hyprctl_name m) ≡ holds m ms
unfolding holds
is_member-names [] m = refl
is_member-names (n ∷ ns) m = rw (is_member-names ns m, same_name n m)

any-append :
    (p : Text → Bool) (b : Bool) (t : Text) (rest : List Text)
    → any p (mod_name b t ++ rest) ≡ (b && p t || any p rest)
any-append p true t rest = ground arith
any-append p false t rest = refl

all-append :
    (p : Text → Bool) (b : Bool) (t : Text) (rest : List Text)
    → all p (mod_name b t ++ rest) ≡ ((not b || p t) && all p rest)
all-append p true t rest = refl
all-append p false t rest = refl

-- A modifier's name is listed exactly when its bit is set.
is_member-decode_mods :
    (mask : ℕ) (m : Modifier) → is_member (decode_mods mask) (hyprctl_name m) ≡ has_bit (bit m) mask
unfolding decode_mods hyprctl_name eq_text
is_member-decode_mods mask shift = ground arith
is_member-decode_mods mask ctrl = ground arith
is_member-decode_mods mask alt = ground arith
is_member-decode_mods mask super = ground arith

all-decode_mods :
    (p : Text → Bool) (mask : ℕ)
    → ((m : Modifier) → has_bit (bit m) mask ≡ true → p (hyprctl_name m) ≡ true)
    → all p (decode_mods mask) ≡ true
unfolding decode_mods hyprctl_name
all-decode_mods p mask h = ground (arith, h shift, h ctrl, h alt, h super)

all-names :
    (p : Text → Bool) (ms : ModifierSet)
    → ((m : Modifier) → holds m ms ≡ true → p (hyprctl_name m) ≡ true)
    → all p (map hyprctl_name ms) ≡ true
all-names p [] h = refl
all-names p (n ∷ ns) h =
    let first = h n (holds_head n ns) in
    let rest = all-names p ns (λ m k. h m (ground (arith, holds-cons m n ns, k))) in ground arith

-- Every member of a list passes the test that the whole list passes.
all-is_member :
    (p : Text → Bool) (ts : List Text) (t : Text)
    → all p ts ≡ true
    → is_member ts t ≡ true
    → p t ≡ true
all-is_member p [] t h m = absurd (ground arith)
all-is_member p (u ∷ us) t h m = elim (Bool-cases (eq_text u t)) [
  | inl e ↦ ap p (sym ((eq_text_iff u t).0 e)) ∙ ground (arith, h)
  | inr e ↦ all-is_member p us t (ground (arith, h)) (ground (arith, m))
]

-- The names of a bind are those of a combination exactly when its mask wants them.
same_set-Wants :
    (mask : ℕ) (ms : ModifierSet)
    → (same_set (decode_mods mask) (map hyprctl_name ms) ≡ true) ↔ Wants mask ms
unfolding same_set
same_set-Wants mask ms =
    let there = is_member-decode_mods mask in
    let here = is_member-names ms in
    (
      (λ h m.
          let sides = and-both (all (is_member (map hyprctl_name ms)) (decode_mods mask)) _ h in
          ground (
            arith,
            there m,
            here m,
            all-is_member (is_member (map hyprctl_name ms)) (decode_mods mask) (hyprctl_name m)
                sides.0,
            all-is_member (is_member (decode_mods mask)) (map hyprctl_name ms) (hyprctl_name m)
                sides.1,
          )),
      (λ w.
          let left =
            all-decode_mods (is_member (map hyprctl_name ms)) mask
              (λ m b. here m ∙ sym (w m) ∙ b) in
          let right = all-names (is_member (decode_mods mask)) ms (λ m b. there m ∙ w m ∙ b) in
          ground arith),
    )

-- The other conditions of a match.
pub record Fires (bind : Bind) (combo : KeyCombo) (submap : Option Text) : Type 0 where
  pub keyboard : bind.mouse ≡ false
  pub in_submap : submap_ok bind submap ≡ true
  pub same_key : lowercase bind.key ≡ lowercase combo.key
  pub wanted : Wants bind.modmask combo.modifiers

-- A bind whose modifier names are those of its mask matches a combination exactly when it is not a
-- mouse bind, belongs to the submap, has the same key up to case, and the mask has of the Shift,
-- Ctrl, Alt and Super bits exactly those of the modifiers of the combination.
pub bind_matches-Fires :
    (bind : Bind) (combo : KeyCombo) (submap : Option Text)
    → bind.mods ≡ decode_mods bind.modmask
    → (bind_matches bind combo submap ≡ true) ↔ Fires bind combo submap
unfolding bind_matches combo_mod_set
bind_matches-Fires bind combo submap decoded =
    let set : (same_set bind.mods (map hyprctl_name combo.modifiers) ≡ true)
        ↔ Wants bind.modmask combo.modifiers =
      rw decoded (same_set-Wants bind.modmask combo.modifiers) in
    let keys = eq_text_iff (lowercase bind.key) (lowercase combo.key) in
    (
      (λ h. record {
        keyboard = ground arith;
        in_submap = ground arith;
        same_key = keys.0 (ground arith);
        wanted = set.0 (ground arith);
      }),
      (λ f.
          let k = keys.1 f.same_key in let m = set.1 f.wanted in rw (f.keyboard, f.in_submap, k) m),
    )
