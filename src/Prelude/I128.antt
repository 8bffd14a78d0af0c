-- ===== src/Prelude/I128.antt =====
-- Rust's `i128`: the range, checked arithmetic, and casts that wrap to a narrower width.
use Prim.Native.Nat.{ℕ, suc, ◌+◌, ◌-◌, ◌/◌, ◌%◌, ◌^◌}
use mathlib.Core.Bool.{Bool, ◌&&◌}
use mathlib.Core.Option.{Option, none, some}
use fpp_tools.Prelude.Tests.{ltb, if◌then◌else◌}
use fpp_tools.Prelude.Int.{ℤ, pos, negsuc, pos_part, neg_part, ◌+ℤ◌, ◌-ℤ◌, ◌*ℤ◌, leb_ℤ, ◌==ℤ◌}

abbrev pub i128_max : ℤ
i128_max = pos (2 ^ 127 - 1)

abbrev pub i128_min : ℤ
i128_min = negsuc (2 ^ 127 - 1)

unfoldable pub in_i128 : ℤ → Bool
in_i128 a = leb_ℤ i128_min a && leb_ℤ a i128_max

abbrev pub checked : ℤ → Option ℤ
checked a = if in_i128 a then some a else none

unfoldable pub checked_add : ℤ → ℤ → Option ℤ
checked_add a b = checked (a +ℤ b)

unfoldable pub checked_sub : ℤ → ℤ → Option ℤ
checked_sub a b = checked (a -ℤ b)

unfoldable pub checked_mul : ℤ → ℤ → Option ℤ
checked_mul a b = checked (a *ℤ b)

unfoldable pub checked_neg : ℤ → Option ℤ
checked_neg a = checked (pos 0 -ℤ a)

-- The quotient rounded towards zero.
infixl 70 ◌/ℤ◌
unfoldable pub ◌/ℤ◌ : ℤ → ℤ → ℤ
pos a /ℤ pos b = pos (a / b)
pos a /ℤ negsuc b = pos 0 -ℤ pos (a / suc b)
negsuc a /ℤ pos b = pos 0 -ℤ pos (suc a / b)
negsuc a /ℤ negsuc b = pos (suc a / suc b)

unfoldable pub checked_div : ℤ → ℤ → Option ℤ
checked_div a b = if b ==ℤ pos 0 then none else checked (a /ℤ b)

-- `a as u…` and `a as i…` at a width with `m` values.
unfoldable pub wrap_unsigned : ℕ → ℤ → ℤ
wrap_unsigned m a = pos ((pos_part a + (m - neg_part a % m)) % m)

unfoldable pub wrap_signed : ℕ → ℤ → ℤ
wrap_signed m a =
    let u = (pos_part a + (m - neg_part a % m)) % m in
    if ltb u (m / 2) then pos u else negsuc (m - u - 1)

-- `a >> k`, the arithmetic shift.
unfoldable pub shift_right_ℤ : ℤ → ℕ → ℤ
shift_right_ℤ (pos n) k = pos (n / 2 ^ k)
shift_right_ℤ (negsuc n) k = negsuc (n / 2 ^ k)
