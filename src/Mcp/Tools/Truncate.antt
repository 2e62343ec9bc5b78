-- ===== src/Mcp/Tools/Truncate.antt =====
-- The cut of a text in a preview.
use hypr_pilot.Prelude.{
  ℕ, ◌-◌, ◌≤◌, ◌≡◌, refl, ap, inl, inr, [], ◌∷◌, ◌++◌, Text, leb, Bool-cases, true, append-nil, sym,
  arith,
}
use hypr_pilot.Mcp.Tools.Ops.{width, byte_len, floor_boundary, truncate}

floor_boundary-fits : (s : Text) (max : ℕ) → byte_len (floor_boundary s max) ≤ max
unfolding byte_len floor_boundary
floor_boundary-fits [] max = omega arith
floor_boundary-fits (c ∷ s) max = ground (arith, floor_boundary-fits s (max - width c))

floor_boundary_begins : (s : Text) (max : ℕ) → (after : Text) × (s ≡ floor_boundary s max ++ after)
unfolding floor_boundary
floor_boundary_begins [] max = ([], refl)
floor_boundary_begins (c ∷ s) max = elim (Bool-cases (leb (width c) max)) [
  | inl e ↦ let r = floor_boundary_begins s (max - width c) in rw e (r.0, ap (λ t. c ∷ t) r.1)
  | inr e ↦ rw e (c ∷ s, refl)
]

floor_boundary_longest :
    (p q : Text) (max : ℕ)
    → byte_len p ≤ max
    → (rest : Text) × (floor_boundary (p ++ q) max ≡ p ++ rest)
unfolding byte_len floor_boundary
floor_boundary_longest [] q max h = (floor_boundary q max, refl)
floor_boundary_longest (c ∷ p) q max h =
    let fits : leb (width c) max ≡ true = ground arith in
    let r = floor_boundary_longest p q (max - width c) (omega arith) in
    rw fits (r.0, ap (λ t. c ∷ t) r.1)

-- A text that is cut to a number of bytes keeps a beginning of it that has at most so many bytes
-- and is at least as long as any beginning that does.
pub truncate-longest :
    (p q : Text) (max : ℕ)
    → byte_len p ≤ max
    → ((rest : Text) × (truncate (p ++ q) max ≡ p ++ rest))
      × ((after : Text) × (p ++ q ≡ truncate (p ++ q) max ++ after))
      × (byte_len (truncate (p ++ q) max) ≤ max)
unfolding truncate
truncate-longest p q max h = elim (Bool-cases (leb (byte_len (p ++ q)) max)) [
  | inl e ↦ rw e ((q, refl), ([], sym (append-nil (p ++ q))), ground arith)
  | inr e ↦ rw e (
    floor_boundary_longest p q max h,
    floor_boundary_begins (p ++ q) max,
    floor_boundary-fits (p ++ q) max,
  )
]
