-- ===== src/Values/Integers/Truncation.antt =====
-- fpp_analysis/src/semantics/value.rs: `truncate_int` is reduction to the kind's range.
use fpp_tools.Prelude.{ℕ, ◌+◌, ◌%◌, ◌^◌, ℤ, pos_part, neg_part, ◌≡◌, arith}
use fpp_tools.Semantics.Data.{IntegerKind, u8, i8, u16, i16, u32, i32, u64, i64}
use fpp_tools.Values.Integers.{truncate_int, bit_width, signedness, InRange}

-- Truncation gives a value of the kind's range.
pub truncate_int-InRange : (a : ℤ) (k : IntegerKind) → InRange k (truncate_int a k)
unfolding truncate_int bit_width signedness
truncate_int-InRange a i8 = ground arith
truncate_int-InRange a i16 = ground arith
truncate_int-InRange a i32 = ground arith
truncate_int-InRange a i64 = ground arith
truncate_int-InRange a u8 = ground arith
truncate_int-InRange a u16 = ground arith
truncate_int-InRange a u32 = ground arith
truncate_int-InRange a u64 = ground arith

-- The pattern of bits is that of the value: they differ by a multiple of the number of patterns.
abbrev pub SameModulo : ℕ → ℤ → ℤ → Type 0
SameModulo m a b = (pos_part a + neg_part b) % m ≡ (pos_part b + neg_part a) % m

truncate_int-SameModulo :
    (a : ℤ) (k : IntegerKind) → SameModulo (2 ^ bit_width k) (truncate_int a k) a
unfolding truncate_int bit_width
truncate_int-SameModulo a i8 = ground arith
truncate_int-SameModulo a i16 = ground arith
truncate_int-SameModulo a i32 = ground arith
truncate_int-SameModulo a i64 = ground arith
truncate_int-SameModulo a u8 = ground arith
truncate_int-SameModulo a u16 = ground arith
truncate_int-SameModulo a u32 = ground arith
truncate_int-SameModulo a u64 = ground arith

-- A value of the kind's range is left as it is.
truncate_int-of_InRange : (a : ℤ) (k : IntegerKind) → InRange k a → truncate_int a k ≡ a
unfolding truncate_int bit_width signedness
truncate_int-of_InRange a i8 h = ground arith
truncate_int-of_InRange a i16 h = ground arith
truncate_int-of_InRange a i32 h = ground arith
truncate_int-of_InRange a i64 h = ground arith
truncate_int-of_InRange a u8 h = ground arith
truncate_int-of_InRange a u16 h = ground arith
truncate_int-of_InRange a u32 h = ground arith
truncate_int-of_InRange a u64 h = ground arith

-- Truncation to a kind of width w gives a value of the kind's range that is congruent to the given
-- value modulo 2^w, and leaves a value that is in the range as it is.
pub truncate_int_lem :
    (a : ℤ) (k : IntegerKind)
    → InRange k (truncate_int a k)
      × SameModulo (2 ^ bit_width k) (truncate_int a k) a
      × (InRange k a → truncate_int a k ≡ a)
truncate_int_lem a k =
    (truncate_int-InRange a k, truncate_int-SameModulo a k, truncate_int-of_InRange a k)
