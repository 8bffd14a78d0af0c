-- ===== src/Values/Integers/Shifts.antt =====
-- fpp_analysis/src/semantics/value.rs: `shift_right` is the shift of unbounded integers.
use fpp_tools.Prelude.{
  ℕ, zero, suc, ◌+◌, ◌-◌, ◌/◌, ◌^◌, ◌≤◌, ◌<◌, ltb, true, ℤ, pos, negsuc, ok, err, ◌≡◌, refl, arith,
  sym, ◌∙◌, Bool-cases, inl, inr,
}
use native.Mathlib.Nat.{add-zero, add-suc, pow-suc}
use fpp_tools.Prelude.I128.{shift_right_ℤ, in_i128}
use fpp_tools.Values.Integers.{shift_overflow, shift_left, shift_right}

shift_tests :
    (shift_left (pos 3) (pos 4) ≡ ok (pos 48))
    × (shift_left (negsuc 0) (pos 127) ≡ ok (negsuc (2 ^ 127 - 1)))
    × (shift_left (pos 1) (pos 127) ≡ err shift_overflow)
    × (shift_left (pos 5) (pos 126) ≡ err shift_overflow)
    × (shift_right (negsuc 4) (pos 1) ≡ ok (negsuc 2))
unfolding shift_left shift_right
shift_tests = (refl, refl, refl, refl, refl)

pow-le : (k d : ℕ) → 2 ^ k ≤ 2 ^ (k + d)
pow-le k zero = rw add-zero (omega arith)
pow-le k (suc d) = rw (add-suc, pow-suc) (omega (arith, pow-le k d))

div_small : (n m : ℕ) → n < m → n / m ≡ 0
div_small n m h = grind arith

-- Beyond 127 places only the sign is left.
div_wide : (n k : ℕ) → n < 2 ^ 127 → 127 ≤ k → n / 2 ^ k ≡ n / 2 ^ 127
div_wide n k h b =
    let split : k ≡ 127 + (k - 127) = omega arith in
    let wider : 2 ^ 127 ≤ 2 ^ k = rw split (pow-le 127 (k - 127)) in
    div_small n (2 ^ k) (omega arith) ∙ sym (div_small n (2 ^ 127) h)

-- The bound on the amount is not seen: on an `i128`, `shift_right` gives, for any amount that is not
-- negative, the floor of the quotient by that power of two.
pub shift_right_lem :
    (value : ℤ) (k : ℕ)
    → in_i128 value ≡ true
    → shift_right value (pos k) ≡ ok (shift_right_ℤ value k)
unfolding shift_right in_i128
shift_right_lem (pos n) k h = elim (Bool-cases (ltb k 127)) [
  | inl e ↦ ground arith
  | inr e ↦ ground (arith, div_wide n k (ground arith) (ground arith))
]
shift_right_lem (negsuc n) k h = elim (Bool-cases (ltb k 127)) [
  | inl e ↦ ground arith
  | inr e ↦ ground (arith, div_wide n k (ground arith) (ground arith))
]
