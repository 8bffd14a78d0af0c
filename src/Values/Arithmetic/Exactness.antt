-- ===== src/Values/Arithmetic/Exactness.antt =====
-- fpp_analysis/src/semantics/value.rs: the arithmetic of integer values and enum constants is exact.
use fpp_tools.Prelude.{
  ◌≡◌, refl, true, false, some, inl, inr, ◌⊎◌, ℤ, pos, ◌+ℤ◌, ◌-ℤ◌, ◌*ℤ◌, Result, ok, err,
  if◌then◌else◌, arith, Bool-cases, subst, ◌==ℤ◌,
}
use fpp_tools.Prelude.I128.{
  in_i128, checked_add, checked_sub, checked_mul, checked_neg, checked_div, ◌/ℤ◌,
}
use fpp_tools.Semantics.Data.{
  IntegerKind, Value, primitive_integer_value, integer_value, enum_constant_value, enum_constant,
  enum_type,
}
use fpp_tools.Types.Structure.{integer_kind_eq}
use fpp_tools.Values.Integers.{MathError, overflow, div_by_zero}
use fpp_tools.Values.Arithmetic.{
  FloatOps, Binop, binop_scalars, binop, as_shift_int, add, sub, mul, add_op, sub_op, mul_op,
  div_op, div, is_zero, negate, negate_scalar,
}
use fpp_tools.Values.Operands.{represent}

-- What an operation on integers is to give: the exact result, or the error that it is out of range.
abbrev pub IsExact : Result Value MathError → ℤ → Type 0
IsExact result exact =
    ((r : Value) × (in_i128 exact ≡ true) × (result ≡ ok r) × (as_shift_int r ≡ some exact))
    ⊎ ((in_i128 exact ≡ false) × (result ≡ err overflow))

module _ (f : FloatOps) (op : Binop) (a b exact : ℤ)
    (computes : op.int_op a b ≡ (if in_i128 exact then ok exact else err overflow)) where
  kinds-IsExact :
      (k1 k2 : IntegerKind)
      → IsExact
          (binop_scalars f op (primitive_integer_value a k1) (primitive_integer_value b k2))
          exact
  unfolding binop_scalars as_shift_int
  kinds-IsExact k1 k2 = elim (Bool-cases (in_i128 exact)) [
    | inr e ↦ inr (e, ground arith)
    | inl e ↦ elim (Bool-cases (integer_kind_eq k1 k2)) [
      | inl p ↦ inl (primitive_integer_value exact k1, e, ground arith, refl)
      | inr p ↦ inl (integer_value exact, e, ground arith, refl)
    ]
  ]

  left_integer-IsExact :
      (k : IntegerKind)
      → IsExact (binop_scalars f op (integer_value a) (primitive_integer_value b k)) exact
  unfolding binop_scalars as_shift_int
  left_integer-IsExact k = elim (Bool-cases (in_i128 exact)) [
    | inr e ↦ inr (e, ground arith)
    | inl e ↦ inl (integer_value exact, e, ground arith, refl)
  ]

  right_integer-IsExact :
      (k : IntegerKind)
      → IsExact (binop_scalars f op (primitive_integer_value a k) (integer_value b)) exact
  unfolding binop_scalars as_shift_int
  right_integer-IsExact k = elim (Bool-cases (in_i128 exact)) [
    | inr e ↦ inr (e, ground arith)
    | inl e ↦ inl (integer_value exact, e, ground arith, refl)
  ]

  integers-IsExact : IsExact (binop_scalars f op (integer_value a) (integer_value b)) exact
  unfolding binop_scalars as_shift_int
  integers-IsExact = elim (Bool-cases (in_i128 exact)) [
    | inr e ↦ inr (e, ground arith)
    | inl e ↦ inl (integer_value exact, e, ground arith, refl)
  ]

-- An integral value: its integer, and what `binop` makes of it.
data Integral : Value → ℤ → Type 0 where
  kind : (v : ℤ) (k : IntegerKind) → Integral (primitive_integer_value v k) v
  unbounded : (v : ℤ) → Integral (integer_value v) v

-- The representation of a value that has an integer.
represent-Integral : (v : Value) {a : ℤ} → as_shift_int v ≡ some a → Integral (represent v) a
unfolding as_shift_int represent
represent-Integral (primitive_integer_value v k) {a} h =
    let same : v ≡ a = ground arith in
    subst (Integral (primitive_integer_value v k)) same (kind v k)
represent-Integral (integer_value v) {a} h =
    let same : v ≡ a = ground arith in subst (Integral (integer_value v)) same (unbounded v)
represent-Integral (enum_constant_value (enum_constant n v (enum_type d k e))) {a} h =
    let same : v ≡ a = ground arith in
    subst (Integral (primitive_integer_value v k)) same (kind v k)
represent-Integral _ h = cc

scalars-IsExact :
    (f : FloatOps) (op : Binop) {v w : Value} {a b : ℤ} (exact : ℤ)
    → op.int_op a b ≡ (if in_i128 exact then ok exact else err overflow)
    → Integral v a
    → Integral w b
    → IsExact (binop_scalars f op v w) exact
scalars-IsExact f op exact h (kind a k1) (kind b k2) = kinds-IsExact f op a b exact h k1 k2
scalars-IsExact f op exact h (kind a k) (unbounded b) = right_integer-IsExact f op a b exact h k
scalars-IsExact f op exact h (unbounded a) (kind b k) = left_integer-IsExact f op a b exact h k
scalars-IsExact f op exact h (unbounded a) (unbounded b) = integers-IsExact f op a b exact h

-- On values that have integers, `binop` is the operation on their representations.
binop-represent :
    (f : FloatOps) (op : Binop) (v w : Value) {a : ℤ}
    → as_shift_int v ≡ some a
    → binop f op v w ≡ binop_scalars f op (represent v) (represent w)
unfolding as_shift_int represent binop
binop-represent f op (primitive_integer_value v k) w h = refl
binop-represent f op (integer_value v) w h = refl
binop-represent f op (enum_constant_value (enum_constant n v (enum_type d k e))) w h = refl
binop-represent f op _ w h = cc

binop-IsExact :
    (f : FloatOps) (op : Binop) (v w : Value) {a b : ℤ} (exact : ℤ)
    → op.int_op a b ≡ (if in_i128 exact then ok exact else err overflow)
    → as_shift_int v ≡ some a
    → as_shift_int w ≡ some b
    → IsExact (binop f op v w) exact
binop-IsExact f op v w exact h hv hw =
    rw (binop-represent f op v w hv)
      (scalars-IsExact f op exact h (represent-Integral v hv) (represent-Integral w hw))

-- On integers and enum constants `add`, `sub` and `mul` give the exact sum, difference and product,
-- or, exactly where that is no `i128`, the error of an overflow: no result wraps around.
pub arithmetic-IsExact :
    (f : FloatOps) (v w : Value) {a b : ℤ}
    → as_shift_int v ≡ some a
    → as_shift_int w ≡ some b
    → IsExact (add f v w) (a +ℤ b) × IsExact (sub f v w) (a -ℤ b) × IsExact (mul f v w) (a *ℤ b)
unfolding add sub mul checked_add checked_sub checked_mul
arithmetic-IsExact f v w {a} {b} hv hw = (
  binop-IsExact f (add_op f) v w (a +ℤ b)
      (elim (Bool-cases (in_i128 (a +ℤ b))) [ inl e ↦ rw e | inr e ↦ rw e ]) hv hw,
  binop-IsExact f (sub_op f) v w (a -ℤ b)
      (elim (Bool-cases (in_i128 (a -ℤ b))) [ inl e ↦ rw e | inr e ↦ rw e ]) hv hw,
  binop-IsExact f (mul_op f) v w (a *ℤ b)
      (elim (Bool-cases (in_i128 (a *ℤ b))) [ inl e ↦ rw e | inr e ↦ rw e ]) hv hw,
)

is_zero-integer :
    (f : FloatOps) (w : Value) {b : ℤ} → as_shift_int w ≡ some b → is_zero f w ≡ (b ==ℤ pos 0)
unfolding as_shift_int is_zero
is_zero-integer f (primitive_integer_value v k) h = ground arith
is_zero-integer f (integer_value v) h = ground arith
is_zero-integer f (enum_constant_value (enum_constant n v ty)) h = ground arith
is_zero-integer f _ h = cc

-- On integers and enum constants `div` is the error of a division by zero exactly where the divisor
-- is zero, and otherwise the quotient rounded towards zero, or the error of an overflow where that
-- is no `i128`.
pub div-IsExact :
    (f : FloatOps) (v w : Value) {a b : ℤ}
    → as_shift_int v ≡ some a
    → as_shift_int w ≡ some b
    → ((b ≡ pos 0) × (div f v w ≡ err div_by_zero))
      ⊎ (((b ==ℤ pos 0) ≡ false) × IsExact (div f v w) (a /ℤ b))
unfolding div checked_div
div-IsExact f v w {a} {b} hv hw = elim (Bool-cases (b ==ℤ pos 0)) [
  | inl z ↦ inl (ground arith, rw (is_zero-integer f w hw) (rw z refl))
  | inr z ↦ inr (
    z,
    rw (is_zero-integer f w hw) (
        rw z (
          binop-IsExact f (div_op f) v w (a /ℤ b)
            (elim (Bool-cases (in_i128 (a /ℤ b))) [ inl e ↦ rw (z, e) | inr e ↦ rw (z, e) ]) hv
            hw)),
  )
]

negate_scalar-IsExact :
    (f : FloatOps) {u : Value} {a : ℤ} → Integral u a → IsExact (negate_scalar f u) (pos 0 -ℤ a)
unfolding negate_scalar checked_neg as_shift_int
negate_scalar-IsExact f (kind a k) = elim (Bool-cases (in_i128 (pos 0 -ℤ a))) [
  | inr e ↦ inr (e, rw e)
  | inl e ↦ inl (primitive_integer_value (pos 0 -ℤ a) k, e, rw e, refl)
]
negate_scalar-IsExact f (unbounded a) = elim (Bool-cases (in_i128 (pos 0 -ℤ a))) [
  | inr e ↦ inr (e, rw e)
  | inl e ↦ inl (integer_value (pos 0 -ℤ a), e, rw e, refl)
]

-- `negate` of an integer or enum constant gives the exact negation, or, exactly where that is no
-- `i128`, the error of an overflow.
pub negate-IsExact :
    (f : FloatOps) (v : Value) {a : ℤ} → as_shift_int v ≡ some a → IsExact (negate f v) (pos 0 -ℤ a)
unfolding negate
negate-IsExact f v h = negate_scalar-IsExact f (represent-Integral v h)
