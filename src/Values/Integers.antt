-- ===== src/Values/Integers.antt =====
-- fpp_analysis/src/semantics/value.rs: `truncate_int`, `shift_left` and `shift_right`.
pub mod Truncation
pub mod Shifts
use fpp_tools.Prelude.{
  ℕ, zero, suc, ◌+◌, ◌-◌, ◌*◌, ◌/◌, ◌%◌, ◌^◌, ◌≤◌, ◌<◌, ltb, leb, Bool, true, false, ◌&&◌, Option,
  none, some, ℤ, pos, negsuc, pos_part, neg_part, ◌*ℤ◌, ◌≤ℤ◌, leb_ℤ, ◌==ℤ◌, if◌then◌else◌, Result,
  ok, err, ok_or, and_then, ◌≡◌, refl, arith, ap,
}
use fpp_tools.Prelude.I128.{wrap_unsigned, wrap_signed, shift_right_ℤ, in_i128}
use fpp_tools.Semantics.Data.{IntegerKind, u8, i8, u16, i16, u32, i32, u64, i64}

pub data MathError : Type 0 where
  invalid_inputs div_by_zero overflow shift_overflow : MathError

unfoldable pub truncate_int : ℤ → IntegerKind → ℤ
unfolding wrap_unsigned wrap_signed
truncate_int value i8 = wrap_signed (2 ^ 8) value
truncate_int value i16 = wrap_signed (2 ^ 16) value
truncate_int value i32 = wrap_signed (2 ^ 32) value
truncate_int value i64 = wrap_signed (2 ^ 64) value
truncate_int value u8 = wrap_unsigned (2 ^ 8) value
truncate_int value u16 = wrap_unsigned (2 ^ 16) value
truncate_int value u32 = wrap_unsigned (2 ^ 32) value
truncate_int value u64 = wrap_unsigned (2 ^ 64) value

-- `IntegerKind::bit_width` and `IntegerKind::signedness` of types.rs.
unfoldable pub bit_width : IntegerKind → ℕ
bit_width i8 = 8
bit_width u8 = 8
bit_width i16 = 16
bit_width u16 = 16
bit_width i32 = 32
bit_width u32 = 32
bit_width i64 = 64
bit_width u64 = 64

pub data Signedness : Type 0 where
  signed unsigned : Signedness

unfoldable pub signedness : IntegerKind → Signedness
signedness i8 = signed
signedness i16 = signed
signedness i32 = signed
signedness i64 = signed
signedness u8 = unsigned
signedness u16 = unsigned
signedness u32 = unsigned
signedness u64 = unsigned

-- The two ends of the range of a kind, from its width and signedness.
abbrev pub range_of : Signedness → ℕ → ℤ × ℤ
range_of signed w = (negsuc (2 ^ (w - 1) - 1), pos (2 ^ (w - 1) - 1))
range_of unsigned w = (pos 0, pos (2 ^ w - 1))

pub record InRange (k : IntegerKind) (a : ℤ) : Type 0 where
  pub low : (range_of (signedness k) (bit_width k)).0 ≤ℤ a
  pub high : a ≤ℤ (range_of (signedness k) (bit_width k)).1

-- `u32::try_from(amount)`, for an amount that is not negative.
abbrev u32_of : ℤ → Option ℕ
u32_of (pos k) = if ltb k (2 ^ 32) then some k else none
u32_of (negsuc k) = none

-- `value.checked_shl(amount)`: the bits that leave an `i128` are lost.
abbrev checked_shl : ℤ → ℕ → Option ℤ
checked_shl value amount =
    if ltb amount 128 then some (wrap_signed (2 ^ 128) (value *ℤ pos (2 ^ amount))) else none

unfoldable pub shift_left : ℤ → ℤ → Result ℤ MathError
unfolding wrap_signed shift_right_ℤ ◌*ℤ◌
shift_left value (negsuc k) = err invalid_inputs
shift_left value (pos k) =
    if value ==ℤ pos 0
    then ok (pos 0)
    else and_then (ok_or shift_overflow (u32_of (pos k))) λ amount.
      and_then (ok_or shift_overflow (checked_shl value amount))
        λ shifted. if shift_right_ℤ shifted amount ==ℤ value then ok shifted else err shift_overflow

unfoldable pub shift_right : ℤ → ℤ → Result ℤ MathError
unfolding shift_right_ℤ
shift_right value (negsuc k) = err invalid_inputs
shift_right value (pos k) = ok (shift_right_ℤ value (if ltb k 127 then k else 127))
