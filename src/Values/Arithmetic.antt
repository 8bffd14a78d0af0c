-- ===== src/Values/Arithmetic.antt =====
-- fpp_analysis/src/semantics/value.rs: the arithmetic of values. The operations on floats, which are
-- those of IEEE 754, are a parameter.
pub mod Typing
pub mod Exactness
use fpp_tools.Prelude.{
  ℕ, suc, String, Bool, true, false, Option, none, some, List, [], ◌∷◌, ℤ, pos, ◌==ℤ◌,
  if◌then◌else◌, Result, ok, err, ok_or, and_then,
}
use Prim.Native.String.{◌++◌}
use fpp_tools.Prelude.I128.{checked_add, checked_sub, checked_mul, checked_neg, checked_div}
use fpp_tools.Semantics.Data.{
  IntegerKind, FloatKind, f32, f64, F64, FppType, primitive_int, float, string, boolean, integer,
  abs, array, anon_array, enum, struct, anon_struct, TypeMembers, no_members, member, EnumType,
  enum_type, Value, primitive_integer_value, abs_type_value, integer_value, float_value,
  boolean_value, string_value, enum_constant_value, anon_array_value, array_value,
  anon_struct_value, struct_value, EnumConstantValue, enum_constant, AnonArrayValue, elements,
  array_elements, struct_members, Values, no_values, value, ValueMembers, no_value_members,
  value_member, OptionValue, no_value, some_value,
}
use fpp_tools.Types.Structure.{integer_kind_eq, float_kind_eq}
use fpp_tools.Values.Integers.{
  MathError, invalid_inputs, div_by_zero, overflow, shift_left, shift_right, truncate_int,
}
use fpp_tools.Values.Operands.{convert_to_rep_type, represent, count_values, get_type, member_types}

-- The operations of `f64` that the source uses.
pub record FloatOps : Type 0 where
  pub f64_add : F64 → F64 → F64
  pub f64_sub : F64 → F64 → F64
  pub f64_mul : F64 → F64 → F64
  pub f64_div : F64 → F64 → F64
  pub f64_neg : F64 → F64
  -- `value as f64`, of an `i128`.
  pub f64_of_int : ℤ → F64
  -- `value as i32`.
  pub f64_to_i32 : F64 → ℤ
  -- `value as f32 as f64`.
  pub f64_to_f32 : F64 → F64
  -- `value.abs() < FloatValue::EPSILON`.
  pub f64_near_zero : F64 → Bool

abbrev pub MathResult : Type 0
MathResult = Result Value MathError

abbrev pub Op : Type 0 → Type 0
Op A = A → A → Result A MathError

pub record Binop : Type 0 where
  pub int_op : Op ℤ
  pub double_op : Op F64
  pub string_op_opt : Option (Op String)

-- The operation on two values neither of which is an enum constant.
unfoldable pub binop_scalars : FloatOps → Binop → Value → Value → MathResult
binop_scalars f op (primitive_integer_value left kind_left)
      (primitive_integer_value right kind_right) =
    and_then (op.int_op left right) λ result.
      if integer_kind_eq kind_left kind_right
      then ok (primitive_integer_value result kind_left)
      else ok (integer_value result)
binop_scalars f op (primitive_integer_value left k) (integer_value right) =
    and_then (op.int_op left right) λ result. ok (integer_value result)
binop_scalars f op (primitive_integer_value left k) (float_value right k') =
    and_then (op.double_op (f.f64_of_int left) right) λ result. ok (float_value result f64)
binop_scalars f op (integer_value left) (primitive_integer_value right k) =
    and_then (op.int_op left right) λ result. ok (integer_value result)
binop_scalars f op (integer_value left) (integer_value right) =
    and_then (op.int_op left right) λ result. ok (integer_value result)
binop_scalars f op (integer_value left) (float_value right k) =
    and_then (op.double_op (f.f64_of_int left) right) λ result. ok (float_value result f64)
binop_scalars f op (float_value left k) (primitive_integer_value right k') =
    and_then (op.double_op left (f.f64_of_int right)) λ result. ok (float_value result f64)
binop_scalars f op (float_value left k) (integer_value right) =
    and_then (op.double_op left (f.f64_of_int right)) λ result. ok (float_value result f64)
binop_scalars f op (float_value left kind_left) (float_value right kind_right) =
    and_then (op.double_op left right) λ result.
      ok (float_value result (if float_kind_eq kind_left kind_right then kind_left else f64))
binop_scalars f op (string_value left) (string_value right) = elim op.string_op_opt [
  | none ↦ err invalid_inputs
  | some string_op ↦ and_then (string_op left right) λ result. ok (string_value result)
]
binop_scalars f op v w = err invalid_inputs

-- A number takes an enum constant on its right as its representation; a string does not.
unfoldable pub binop_right : FloatOps → Binop → Value → Value → MathResult
unfolding represent binop_scalars
binop_right f op (string_value left) other = binop_scalars f op (string_value left) other
binop_right f op self other = binop_scalars f op self (represent other)

-- `Value::binop`.
unfoldable pub binop : FloatOps → Binop → Value → Value → MathResult
unfolding binop_right
binop f op (enum_constant_value e) other = binop_right f op (convert_to_rep_type e) other
binop f op self other = binop_right f op self other

abbrev pub int_op_of : (ℤ → ℤ → Option ℤ) → Op ℤ
int_op_of g v1 v2 = ok_or overflow (g v1 v2)

abbrev pub add_op : FloatOps → Binop
add_op f = record {
  int_op = int_op_of checked_add;
  double_op = λ v1 v2. ok (f.f64_add v1 v2);
  string_op_opt = some (λ v1 v2. ok (v1 ++ v2));
}

unfoldable pub add : FloatOps → Value → Value → MathResult
unfolding binop
add f = binop f (add_op f)

abbrev pub sub_op : FloatOps → Binop
sub_op f = record {
  int_op = int_op_of checked_sub;
  double_op = λ v1 v2. ok (f.f64_sub v1 v2);
  string_op_opt = none;
}

unfoldable pub sub : FloatOps → Value → Value → MathResult
unfolding binop
sub f = binop f (sub_op f)

abbrev pub mul_op : FloatOps → Binop
mul_op f = record {
  int_op = int_op_of checked_mul;
  double_op = λ v1 v2. ok (f.f64_mul v1 v2);
  string_op_opt = none;
}

unfoldable pub mul : FloatOps → Value → Value → MathResult
unfolding binop
mul f = binop f (mul_op f)

unfoldable pub is_zero : FloatOps → Value → Bool
is_zero f (primitive_integer_value v k) = v ==ℤ pos 0
is_zero f (integer_value v) = v ==ℤ pos 0
is_zero f (float_value v k) = f.f64_near_zero v
is_zero f (enum_constant_value (enum_constant n v ty)) = v ==ℤ pos 0
is_zero f v = false

abbrev pub div_op : FloatOps → Binop
div_op f = record {
  int_op = int_op_of checked_div;
  double_op = λ v1 v2. ok (f.f64_div v1 v2);
  string_op_opt = none;
}

unfoldable pub div : FloatOps → Value → Value → MathResult
unfolding binop is_zero
div f self other = if is_zero f other then err div_by_zero else binop f (div_op f) self other

unfoldable pub negate_scalar : FloatOps → Value → MathResult
negate_scalar f (primitive_integer_value v k) =
    and_then (ok_or overflow (checked_neg v)) λ n. ok (primitive_integer_value n k)
negate_scalar f (integer_value v) =
    and_then (ok_or overflow (checked_neg v)) λ n. ok (integer_value n)
negate_scalar f (float_value v k) = ok (float_value (f.f64_neg v) k)
negate_scalar f v = err invalid_inputs

unfoldable pub negate : FloatOps → Value → MathResult
unfolding negate_scalar represent
negate f v = negate_scalar f (represent v)

-- The shift of two values neither of which is an enum constant.
unfoldable pub shift_scalars : Op ℤ → Value → Value → MathResult
shift_scalars op (primitive_integer_value v k) (primitive_integer_value amount k') =
    and_then (op v amount) λ result. ok (primitive_integer_value result k)
shift_scalars op (primitive_integer_value v k) (integer_value amount) =
    and_then (op v amount) λ result. ok (integer_value result)
shift_scalars op (integer_value v) (primitive_integer_value amount k) =
    and_then (op v amount) λ result. ok (integer_value result)
shift_scalars op (integer_value v) (integer_value amount) =
    and_then (op v amount) λ result. ok (integer_value result)
shift_scalars op v w = err invalid_inputs

unfoldable pub int_shift_op : Op ℤ → Value → Value → MathResult
unfolding shift_scalars represent
int_shift_op op self other = shift_scalars op (represent self) (represent other)

unfoldable pub shl : Value → Value → MathResult
unfolding int_shift_op
shl = int_shift_op shift_left

unfoldable pub shr : Value → Value → MathResult
unfolding int_shift_op
shr = int_shift_op shift_right

unfoldable pub as_shift_int : Value → Option ℤ
as_shift_int (integer_value v) = some v
as_shift_int (primitive_integer_value v k) = some v
as_shift_int (enum_constant_value (enum_constant n v ty)) = some v
as_shift_int v = none

unfoldable mutual
  unfolding truncate_int

  pub truncate : FloatOps → Value → Value
  truncate f (primitive_integer_value v k) = primitive_integer_value (truncate_int v k) k
  truncate f (float_value v f32) = float_value (f.f64_to_f32 v) f32
  truncate f (float_value v f64) = float_value v f64
  truncate f (anon_array_value (elements es no_value)) =
      anon_array_value (elements (truncate_values f es) no_value)
  truncate f (anon_array_value (elements es (some_value s))) =
      anon_array_value (elements (truncate_values f es) (some_value (truncate f s)))
  truncate f (array_value (array_elements (elements es no_value) ty)) =
      array_value (array_elements (elements (truncate_values f es) no_value) ty)
  truncate f (array_value (array_elements (elements es (some_value s)) ty)) =
      array_value (array_elements (elements (truncate_values f es) (some_value (truncate f s))) ty)
  truncate f (anon_struct_value ms) = anon_struct_value (truncate_members f ms)
  truncate f (struct_value (struct_members ms ty)) =
      struct_value (struct_members (truncate_members f ms) ty)
  truncate f v = v

  pub truncate_values : FloatOps → Values → Values
  truncate_values f no_values = no_values
  truncate_values f (value v vs) = value (truncate f v) (truncate_values f vs)

  pub truncate_members : FloatOps → ValueMembers → ValueMembers
  truncate_members f no_value_members = no_value_members
  truncate_members f (value_member n v ms) = value_member n (truncate f v) (truncate_members f ms)
