-- ===== src/Values/Arithmetic/Typing.antt =====
-- fpp_analysis/src/semantics/value.rs and types.rs: the type of the result of an operation is the common
-- type of its operands.
use fpp_tools.Prelude.{
  ◌≡◌, refl, ◌∙◌, String, Option, none, some, inl, inr, ℤ, Result, ok, err, and_then, and_then-ok,
  if◌then◌else◌, arith, Bool-cases,
}
use fpp_tools.Semantics.Data.{
  IntegerKind, u8, FloatKind, f64, FppType, primitive_int, float, string, integer, Value,
  primitive_integer_value, integer_value, float_value, string_value, enum_constant_value,
}
use fpp_tools.Types.Structure.{
  integer_kind_eq, float_kind_eq, identical, is_canonical, is_float, is_numeric,
}
use fpp_tools.Types.Common.{CommonType, common_type, common_type_rules}
use fpp_tools.Types.Common.Equation.{common_type_lem}
use fpp_tools.Values.Integers.{MathError, invalid_inputs}
use fpp_tools.Values.Arithmetic.{FloatOps, Binop, Op, binop_scalars, binop_right, binop}
use fpp_tools.Values.Operands.{convert_to_rep_type, represent, get_type}

-- What the rules give for two scalar types.
module _ (rec : CommonType) where
  rules-integers :
      (k1 k2 : IntegerKind)
      → common_type_rules rec (primitive_int k1, primitive_int k2)
        ≡ some (if integer_kind_eq k1 k2 then primitive_int k1 else integer)
  unfolding common_type_rules identical is_canonical is_float is_numeric
  rules-integers k1 k2 = ground arith

  rules-floats :
      (k1 k2 : FloatKind)
      → common_type_rules rec (float k1, float k2)
        ≡ some (float (if float_kind_eq k1 k2 then k1 else f64))
  unfolding common_type_rules identical is_canonical is_float is_numeric
  rules-floats k1 k2 = ground arith

  rules-mixed :
      (k : IntegerKind) (x : FloatKind)
      → (common_type_rules rec (primitive_int k, integer) ≡ some integer)
        × (common_type_rules rec (integer, primitive_int k) ≡ some integer)
        × (common_type_rules rec (integer, integer) ≡ some integer)
        × (common_type_rules rec (primitive_int k, float x) ≡ some (float f64))
        × (common_type_rules rec (float x, primitive_int k) ≡ some (float f64))
        × (common_type_rules rec (integer, float x) ≡ some (float f64))
        × (common_type_rules rec (float x, integer) ≡ some (float f64))
        × (common_type_rules rec (string none, string none) ≡ some (string none))
  unfolding common_type_rules identical is_canonical is_float is_numeric
  rules-mixed k x = (refl, refl, refl, refl, refl, refl, refl, refl)

-- An operation, and the value made of its result, whose type is `t`.
result_type :
    {A : Type 0} (op : Result A MathError) (make : A → Value) (t : FppType) {r : Value}
    → ((a : A) → get_type (make a) ≡ t)
    → and_then op (λ a. ok (make a)) ≡ ok r
    → some t ≡ some (get_type r)
result_type op make t types h =
    let (a, e, rest) = and_then-ok op (λ a. ok (make a)) h in let typed = types a in cc

integer_result :
    (op : Result ℤ MathError) (k1 k2 : IntegerKind) {r : Value}
    → and_then op (λ result.
      if integer_kind_eq k1 k2
      then ok (primitive_integer_value result k1)
      else ok (integer_value result))
      ≡ ok r
    → some (if integer_kind_eq k1 k2 then primitive_int k1 else integer) ≡ some (get_type r)
unfolding get_type
integer_result op k1 k2 h = elim (Bool-cases (integer_kind_eq k1 k2)) [
  | inl e ↦ rw e (
      result_type op (λ a. primitive_integer_value a k1) (primitive_int k1) (λ a. refl) (rw e at h))
  | inr e ↦ rw e (result_type op integer_value integer (λ a. refl) (rw e at h))
]

string_result :
    (op : Option (Op String)) (left right : String) {r : Value}
    → (elim op [
      | none ↦ err invalid_inputs
      | some string_op ↦ and_then (string_op left right) λ result. ok (string_value result)
    ])
      ≡ ok r
    → some (string none) ≡ some (get_type r)
unfolding get_type
string_result none left right h = cc
string_result (some g) left right h =
    result_type (g left right) string_value (string none) (λ a. refl) h

binop_scalars-type :
    (f : FloatOps) (op : Binop) (v w : Value) {r : Value}
    → binop_scalars f op v w ≡ ok r
    → common_type_rules common_type (get_type v, get_type w) ≡ some (get_type r)
unfolding binop_scalars get_type
binop_scalars-type f op (primitive_integer_value left k1) (primitive_integer_value right k2) h =
    rules-integers common_type k1 k2 ∙ integer_result (op.int_op left right) k1 k2 h
binop_scalars-type f op (primitive_integer_value left k) (integer_value right) h =
    (rules-mixed common_type k f64).0
    ∙ result_type (op.int_op left right) integer_value integer (λ a. refl) h
binop_scalars-type f op (primitive_integer_value left k) (float_value right x) h =
    (rules-mixed common_type k x).3
    ∙ result_type (op.double_op (f.f64_of_int left) right) (λ a. float_value a f64) (float f64)
        (λ a. refl) h
binop_scalars-type f op (integer_value left) (primitive_integer_value right k) h =
    (rules-mixed common_type k f64).1
    ∙ result_type (op.int_op left right) integer_value integer (λ a. refl) h
binop_scalars-type f op (integer_value left) (integer_value right) h =
    (rules-mixed common_type u8 f64).2
    ∙ result_type (op.int_op left right) integer_value integer (λ a. refl) h
binop_scalars-type f op (integer_value left) (float_value right x) h =
    (rules-mixed common_type u8 x).5
    ∙ result_type (op.double_op (f.f64_of_int left) right) (λ a. float_value a f64) (float f64)
        (λ a. refl) h
binop_scalars-type f op (float_value left x) (primitive_integer_value right k) h =
    (rules-mixed common_type k x).4
    ∙ result_type (op.double_op left (f.f64_of_int right)) (λ a. float_value a f64) (float f64)
        (λ a. refl) h
binop_scalars-type f op (float_value left x) (integer_value right) h =
    (rules-mixed common_type u8 x).6
    ∙ result_type (op.double_op left (f.f64_of_int right)) (λ a. float_value a f64) (float f64)
        (λ a. refl) h
binop_scalars-type f op (float_value left x1) (float_value right x2) h =
    rules-floats common_type x1 x2
    ∙ result_type (op.double_op left right)
        (λ a. float_value a (if float_kind_eq x1 x2 then x1 else f64))
        (float (if float_kind_eq x1 x2 then x1 else f64)) (λ a. refl) h
binop_scalars-type f op (string_value left) (string_value right) h =
    (rules-mixed common_type u8 f64).7 ∙ string_result op.string_op_opt left right h
binop_scalars-type f op _ _ h = cc

-- A string and an enum constant have no result.
string_right :
    (f : FloatOps) (op : Binop) (left : String) (w : Value) {r : Value}
    → binop_scalars f op (string_value left) w ≡ ok r
    → common_type_rules common_type (string none, get_type (represent w)) ≡ some (get_type r)
unfolding binop_scalars represent get_type
string_right f op left (string_value right) h =
    binop_scalars-type f op (string_value left) (string_value right) h
string_right f op left _ h = cc

binop_right-type :
    (f : FloatOps) (op : Binop) (v w : Value) {r : Value}
    → binop_right f op v w ≡ ok r
    → common_type_rules common_type (get_type v, get_type (represent w)) ≡ some (get_type r)
unfolding binop_right get_type
binop_right-type f op (string_value left) w h = string_right f op left w h
binop_right-type f op (integer_value left) w h =
    binop_scalars-type f op (integer_value left) (represent w) h
binop_right-type f op v w h = binop_scalars-type f op v (represent w) h

-- The type of what a binary operation gives is the common type of its operands, where an enum
-- constant counts as a value of its representation type.
pub binop-common_type :
    (f : FloatOps) (op : Binop) (v w : Value) {r : Value}
    → binop f op v w ≡ ok r
    → common_type (get_type (represent v), get_type (represent w)) ≡ some (get_type r)
unfolding binop
binop-common_type f op (enum_constant_value e) w h =
    common_type_lem (get_type (convert_to_rep_type e), get_type (represent w))
    ∙ binop_right-type f op (convert_to_rep_type e) w h
binop-common_type f op (integer_value left) w h =
    common_type_lem (get_type (integer_value left), get_type (represent w))
    ∙ binop_right-type f op (integer_value left) w h
binop-common_type f op v w h =
    common_type_lem (get_type v, get_type (represent w)) ∙ binop_right-type f op v w h
