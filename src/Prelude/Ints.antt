-- ===== src/Prelude/Ints.antt =====
-- Signed integers with the range of Rust's `i32`, their decimal `Display` and `str::parse::<i32>`.
use Prim.Native.Nat.{ℕ, zero, suc, ◌+◌, ◌-◌, ◌*◌, ◌/◌, ◌%◌, ◌^◌, ◌≤◌, ◌<◌}
use mathlib.Core.Path.{◌≡◌, refl}
use mathlib.Core.Logic.{◌↔◌, inl, inr}
use mathlib.Core.Bool.{Bool, true, false, ◌||◌}
use mathlib.Core.List.{[], ◌∷◌}
use native.Mathlib.Omega.{arith}
use hypr_pilot.Prelude.Tests.{◌==◌, ltb, leb, if◌then◌else◌, Bool-cases}
use hypr_pilot.Prelude.Results.{Result, ok, err, map_ok}
use hypr_pilot.Prelude.Texts.{Text, codes}

-- `negsuc n` is -(n + 1).
pub data ℤ : Type 0 where
  pos : ℕ → ℤ
  negsuc : ℕ → ℤ

abbrev pub pos_part : ℤ → ℕ
pos_part (pos n) = n
pos_part (negsuc n) = 0

abbrev pub neg_part : ℤ → ℕ
neg_part (pos n) = 0
neg_part (negsuc n) = suc n

-- a - b, as an integer.
abbrev pub sub_ℕ : ℕ → ℕ → ℤ
sub_ℕ a b = if leb b a then pos (a - b) else negsuc (b - a - 1)

abbrev pub eq_ℤ : ℤ → ℤ → Bool
eq_ℤ (pos m) (pos n) = m == n
eq_ℤ (negsuc m) (negsuc n) = m == n
eq_ℤ _ _ = false

pub eq_ℤ_iff : (a b : ℤ) → (eq_ℤ a b ≡ true) ↔ (a ≡ b)
eq_ℤ_iff a b = ground arith

abbrev pub max_i32 : ℕ
max_i32 = 2 ^ 31 - 1

-- -2³¹ ≤ z < 2³¹
abbrev pub InRange32 : ℤ → Type 0
InRange32 (pos n) = n ≤ max_i32
InRange32 (negsuc n) = n ≤ max_i32

-- The decimal digits of `n` before `out`; more fuel than `n` is enough.
unfoldable pub digits : ℕ → ℕ → Text → Text
digits zero n out = out
digits (suc fuel) n out =
    let rest = digits fuel (n / 10) ((b'0' + n % 10) ∷ out) in
    if ltb n 10 then (b'0' + n) ∷ out else rest

unfoldable pub show_ℕ : ℕ → Text
unfolding digits
show_ℕ n = digits (suc n) n []

-- `n.to_string()` for an `i32`.
unfoldable pub show_i32 : ℤ → Text
unfolding show_ℕ
show_i32 (pos n) = show_ℕ n
show_i32 (negsuc n) = b'-' ∷ show_ℕ (suc n)

-- `core::num::IntErrorKind`, as far as `i32` reports it.
pub data ParseIntError : Type 0 where
  no_digits invalid_digit pos_overflow neg_overflow : ParseIntError

unfoldable pub show_error : ParseIntError → Text
show_error no_digits = codes "cannot parse integer from empty string"
show_error invalid_digit = codes "invalid digit found in string"
show_error pos_overflow = codes "number too large to fit in target type"
show_error neg_overflow = codes "number too small to fit in target type"

-- The digits loop: it stops at the first character that is no digit or overflows.
unfoldable pub scan : ℕ → ParseIntError → Text → ℕ → Result ℕ ParseIntError
scan limit over [] n = ok n
scan limit over (c ∷ s) n =
    let d = c - b'0' in
    if ltb c b'0' || ltb b'9' c
    then err invalid_digit
    else if ltb limit (n * 10 + d)
    then err over
    else scan limit over s (n * 10 + d)

-- The number -n.
abbrev pub neg_ℕ : ℕ → ℤ
neg_ℕ zero = pos zero
neg_ℕ (suc n) = negsuc n

scan_neg : Text → Result ℤ ParseIntError
scan_neg [] = err invalid_digit
scan_neg (c ∷ s) = map_ok neg_ℕ (scan (suc max_i32) neg_overflow (c ∷ s) 0)

scan_pos : Text → Result ℤ ParseIntError
scan_pos [] = err invalid_digit
scan_pos (c ∷ s) = map_ok pos (scan max_i32 pos_overflow (c ∷ s) 0)

-- `s.parse::<i32>()`: one sign at most, and at least one digit.
unfoldable pub parse_i32 : Text → Result ℤ ParseIntError
unfolding scan scan_neg scan_pos
parse_i32 [] = err no_digits
parse_i32 (c ∷ s) =
    if c == b'-' then scan_neg s else if c == b'+' then scan_pos s else scan_pos (c ∷ s)

scan-digits :
    (limit : ℕ) (over : ParseIntError) (fuel n : ℕ) (out : Text)
    → n < fuel
    → n ≤ limit
    → scan limit over (digits fuel n out) 0 ≡ scan limit over out n
unfolding digits scan
scan-digits limit over zero n out h k = absurd (omega arith)
scan-digits limit over (suc fuel) n out h k =
    ground (arith, scan-digits limit over fuel (n / 10) ((b'0' + n % 10) ∷ out))

-- The print of a number begins with a digit.
digits_head :
    (fuel n : ℕ) (out : Text)
    → n < fuel
    → (c : ℕ) × (s : Text) × (digits fuel n out ≡ c ∷ s) × (b'0' ≤ c) × (c ≤ b'9')
unfolding digits
digits_head zero n out h = absurd (omega arith)
digits_head (suc fuel) n out h = elim (Bool-cases (ltb n 10)) [
  | inl small ↦ (b'0' + n, out, rw small, omega arith, ground arith)
  | inr large ↦
      let (c, s, e, lo, hi) = digits_head fuel (n / 10) ((b'0' + n % 10) ∷ out) (ground arith) in
      (c, s, rw large e, lo, hi)
]

pub show_ℕ_head : (n : ℕ) → (c : ℕ) × (s : Text) × (show_ℕ n ≡ c ∷ s) × (b'0' ≤ c) × (c ≤ b'9')
unfolding show_ℕ
show_ℕ_head n = digits_head (suc n) n [] (omega arith)

scan-show_ℕ :
    (limit : ℕ) (over : ParseIntError) (n : ℕ) → n ≤ limit → scan limit over (show_ℕ n) 0 ≡ ok n
unfolding show_ℕ
scan-show_ℕ limit over n h =
    rw (scan-digits limit over (suc n) n [] (omega arith) h) (unfold scan in refl)

parse_i32-pos : (n : ℕ) → n ≤ max_i32 → parse_i32 (show_ℕ n) ≡ ok (pos n)
parse_i32-pos n h =
    let (c, s, e, lo, hi) = show_ℕ_head n in
    let whole : scan max_i32 pos_overflow (c ∷ s) 0 ≡ ok n =
      rw e at (scan-show_ℕ max_i32 pos_overflow n h) in
    rw e (unfold parse_i32 in ground arith)

parse_i32-negsuc : (n : ℕ) → n ≤ max_i32 → parse_i32 (b'-' ∷ show_ℕ (suc n)) ≡ ok (negsuc n)
parse_i32-negsuc n h =
    let (c, s, e, lo, hi) = show_ℕ_head (suc n) in
    let whole : scan (suc max_i32) neg_overflow (c ∷ s) 0 ≡ ok (suc n) =
      rw e at (scan-show_ℕ (suc max_i32) neg_overflow (suc n) (omega arith)) in
    rw e (unfold parse_i32 in ground arith)

-- Every 32-bit integer is read back from its decimal print.
pub parse_i32-show_i32 : (z : ℤ) → InRange32 z → parse_i32 (show_i32 z) ≡ ok z
unfolding show_i32
parse_i32-show_i32 (pos n) h = parse_i32-pos n h
parse_i32-show_i32 (negsuc n) h = parse_i32-negsuc n h
