-- ===== src/Core/WorkspaceRef/RoundTrip.antt =====
-- Reading back the wire form of a workspace reference.
use hypr_pilot.Prelude.{
  ℕ, pos, negsuc, ◌≡◌, ◌≤◌, refl, [], ◌∷◌, ◌++◌, Text, codes, eq_text, starts_with, strip_prefix,
  ok, show_i32, show_ℕ_head, parse_i32, InRange32, parse_i32-show_i32, arith, max_i32, map_ok,
  map_err, show_error, show_ℕ, suc,
}
use hypr_pilot.Core.WorkspaceRef.{
  WorkspaceRef, id, name, relative, previous, next, empty, special, encode, parse,
}

-- A text that begins with a digit is read as an absolute id.
parse_digit_first :
    (c : ℕ) (s : Text)
    → b'0' ≤ c
    → c ≤ b'9'
    → parse (c ∷ s)
      ≡ map_ok id
          (map_err (λ e. codes "invalid workspace id: " ++ show_error e) (parse_i32 (c ∷ s)))
unfolding parse eq_text strip_prefix starts_with
parse_digit_first c s lo hi = ground arith

-- What survives a round trip: numbers of 32 bits, and no negative absolute id.
abbrev pub IsValid : WorkspaceRef → Type 0
IsValid (id (pos n)) = n ≤ max_i32
IsValid (id (negsuc n)) = ⊥
IsValid (relative n) = InRange32 n
IsValid w = Unit

parse_plus :
    (s : Text)
    → parse (b'+' ∷ s)
      ≡ map_ok relative
          (map_err (λ e. codes "invalid relative offset: " ++ show_error e) (parse_i32 s))
unfolding parse eq_text strip_prefix
parse_plus s = refl

parse_minus :
    (s : Text)
    → parse (b'-' ∷ s)
      ≡ map_ok relative
          (map_err (λ e. codes "invalid relative offset: " ++ show_error e) (parse_i32 (b'-' ∷ s)))
unfolding parse eq_text strip_prefix starts_with
parse_minus s = refl

-- A negative number is read as a relative offset.
parse-show_negative : (n : ℕ) → n ≤ max_i32 → parse (show_i32 (negsuc n)) ≡ ok (relative (negsuc n))
parse-show_negative n h =
    let back = parse_i32-show_i32 (negsuc n) h in
    unfold show_i32 in rw (parse_minus (show_ℕ (suc n))) (rw back)

parse-show_positive : (n : ℕ) → n ≤ max_i32 → parse (show_i32 (pos n)) ≡ ok (id (pos n))
parse-show_positive n h =
    let (c, s, e, lo, hi) = show_ℕ_head n in
    let back = parse_i32-show_i32 (pos n) h in
    unfold show_i32 in ground (arith, parse_digit_first c s lo hi)

parse-special : (n : Text) → parse (encode (special n)) ≡ ok (special n)
unfolding parse encode eq_text strip_prefix
parse-special [] = refl
parse-special (c ∷ n) = refl

-- Parsing the wire form of a workspace reference gives it back, if its number has 32 bits and it
-- is not a negative absolute id.
pub parse-encode_workspace : (w : WorkspaceRef) → IsValid w → parse (encode w) ≡ ok w
parse-encode_workspace (id (pos n)) h = unfold encode in parse-show_positive n h
parse-encode_workspace (id (negsuc n)) h = absurd h
parse-encode_workspace (name n) h = unfold parse encode strip_prefix in refl
parse-encode_workspace (relative (pos n)) h =
    unfold encode in rw (parse_plus (show_i32 (pos n))) (rw (parse_i32-show_i32 (pos n) h))
parse-encode_workspace (relative (negsuc n)) h = unfold encode in parse-show_negative n h
parse-encode_workspace previous h = unfold parse encode strip_prefix eq_text in refl
parse-encode_workspace next h = unfold parse encode strip_prefix eq_text in refl
parse-encode_workspace empty h = unfold parse encode strip_prefix eq_text in refl
parse-encode_workspace (special n) h = parse-special n

-- A negative absolute id of 32 bits comes back as a relative offset: the two have one wire form.
pub parse-encode_negative :
    (n : ℕ) → n ≤ max_i32 → parse (encode (id (negsuc n))) ≡ ok (relative (negsuc n))
unfolding encode
parse-encode_negative n h = parse-show_negative n h
