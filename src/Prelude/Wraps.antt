-- ===== src/Prelude/Wraps.antt =====
-- The arithmetic of `i32`: `+` and `-` that wrap, as in a release build, `saturating_add`, division
-- by two, which rounds to zero, and the order.
use Prim.Native.Nat.{ℕ, suc, ◌+◌, ◌-◌, ◌/◌, ◌%◌}
use mathlib.Core.Path.{◌≡◌}
use mathlib.Core.Bool.{Bool}
use native.Mathlib.Omega.{arith}
use hypr_pilot.Prelude.Tests.{ltb, leb, if◌then◌else◌}
use hypr_pilot.Prelude.Ints.{ℤ, pos, negsuc, pos_part, neg_part, sub_ℕ, InRange32}

infixl 65 ◌+ℤ◌ ◌-ℤ◌
abbrev pub ◌+ℤ◌ : ℤ → ℤ → ℤ
a +ℤ b = sub_ℕ (pos_part a + pos_part b) (neg_part a + neg_part b)

abbrev pub ◌-ℤ◌ : ℤ → ℤ → ℤ
a -ℤ b = sub_ℕ (pos_part a + neg_part b) (neg_part a + pos_part b)

-- a < b
abbrev pub lt_ℤ : ℤ → ℤ → Bool
lt_ℤ a b = ltb (pos_part a + neg_part b) (pos_part b + neg_part a)

-- `w as i32` for a `u32`
unfoldable pub as_i32 : ℕ → ℤ
as_i32 w = if ltb w 0x80000000 then pos w else negsuc (0xffffffff - w)

-- The `i32` with the same last 32 bits.
unfoldable pub wrap_i32 : ℤ → ℤ
unfolding as_i32
wrap_i32 (pos n) = as_i32 (n % 0x100000000)
wrap_i32 (negsuc n) = as_i32 (0xffffffff - n % 0x100000000)

unfoldable pub add_i32 : ℤ → ℤ → ℤ
unfolding wrap_i32
add_i32 a b = wrap_i32 (a +ℤ b)

unfoldable pub sub_i32 : ℤ → ℤ → ℤ
unfolding wrap_i32
sub_i32 a b = wrap_i32 (a -ℤ b)

-- The nearest `i32`.
unfoldable pub clamp_i32 : ℤ → ℤ
clamp_i32 (pos n) = if leb n 0x7fffffff then pos n else pos 0x7fffffff
clamp_i32 (negsuc n) = if leb n 0x7fffffff then negsuc n else negsuc 0x7fffffff

unfoldable pub saturating_add : ℤ → ℤ → ℤ
unfolding clamp_i32
saturating_add a b = clamp_i32 (a +ℤ b)

-- `z / 2`
unfoldable pub half : ℤ → ℤ
half (pos n) = pos (n / 2)
half (negsuc n) = sub_ℕ 0 (suc n / 2)

abbrev pub min_ℤ : ℤ → ℤ → ℤ
min_ℤ a b = if lt_ℤ b a then b else a

abbrev pub max_ℤ : ℤ → ℤ → ℤ
max_ℤ a b = if lt_ℤ b a then a else b

-- Within the range nothing wraps.
pub wrap_i32-InRange32 : (z : ℤ) → InRange32 z → wrap_i32 z ≡ z
unfolding wrap_i32
wrap_i32-InRange32 (pos n) h = ground arith
wrap_i32-InRange32 (negsuc n) h = ground arith

pub wrap_i32-range : (z : ℤ) → InRange32 (wrap_i32 z)
unfolding wrap_i32
wrap_i32-range (pos n) = ground arith
wrap_i32-range (negsuc n) = ground arith

pub clamp_i32-range : (z : ℤ) → InRange32 (clamp_i32 z)
unfolding clamp_i32
clamp_i32-range (pos n) = ground arith
clamp_i32-range (negsuc n) = ground arith

-- A wrapping sum is its first summand only when the second one is zero.
pub add_i32-same : (a b : ℤ) → InRange32 a → InRange32 b → add_i32 a b ≡ a → b ≡ pos 0
unfolding add_i32
add_i32-same (pos m) (pos n) h k e = ground arith
add_i32-same (pos m) (negsuc n) h k e = ground arith
add_i32-same (negsuc m) (pos n) h k e = ground arith
add_i32-same (negsuc m) (negsuc n) h k e = ground arith

pub add_i32-zero : (a : ℤ) → InRange32 a → add_i32 a (pos 0) ≡ a
unfolding add_i32
add_i32-zero (pos m) h = ground arith
add_i32-zero (negsuc m) h = ground arith
