-- ===== src/Daemon/Cache/Titles.antt =====
-- The update in place for a title event.
use mathlib.Core.Path.{subst}
use hypr_pilot.Prelude.{
  ◌≡◌, refl, ap, sym, false, List, [], ◌∷◌, map, any, Text, eq_text, eq_text_iff, Distinct,
  distinct_cons, if◌then◌else◌, Bool-cases, inl, inr, arith,
}
use hypr_pilot.Core.Types.{Client}
use hypr_pilot.Daemon.Cache.{patch_title}

abbrev pub address_of : Client → Text
address_of c = c.address

-- What the event says happened: the window with the address has the title.
abbrev pub retitle : Text → Text → Client → Client
retitle addr title c = if eq_text c.address addr then record c { title = title } else c

map-retitle_other :
    (addr title : Text) (cs : List Client)
    → any (λ x. eq_text x addr) (map address_of cs) ≡ false
    → map (retitle addr title) cs ≡ cs
map-retitle_other addr title [] h = refl
map-retitle_other addr title (c ∷ cs) h =
    let other : eq_text c.address addr ≡ false = ground arith in
    rw other (ap (λ t. c ∷ t) (map-retitle_other addr title cs (ground arith)))

-- On a list of windows with pairwise distinct addresses, patching the first window with the
-- address gives the list in which exactly the window with that address has the new title.
pub patch_title-map :
    (addr title : Text) (cs : List Client)
    → Distinct (map address_of cs)
    → patch_title addr title cs ≡ map (retitle addr title) cs
unfolding patch_title
patch_title-map addr title [] d = refl
patch_title-map addr title (c ∷ cs) (distinct_cons a rest h d) =
    elim (Bool-cases (eq_text c.address addr)) [
      | inl e ↦
          let same : c.address ≡ addr = (eq_text_iff c.address addr).0 e in
          let others = subst (λ x. any (λ y. eq_text y x) (map address_of cs) ≡ false) same h in
          rw e (
            ap (λ t. record c { title = title } ∷ t) (sym (map-retitle_other addr title cs others)))
      | inr e ↦ rw e (ap (λ t. c ∷ t) (patch_title-map addr title cs d))
    ]
