-- ===== src/Examples/Values.antt =====
-- fpp_analysis/src/semantics/value.rs: the theorems on values at concrete values.
use fpp_tools.Prelude.{
  ◌+◌, ◌*◌, ◌/◌, ◌-◌, ◌^◌, ◌≡◌, ◌⊎◌, refl, false, ◌==◌, some, pos, negsuc, ◌+ℤ◌, ◌-ℤ◌, ◌*ℤ◌, ◌==ℤ◌,
  ok, err, arith,
}
use fpp_tools.Prelude.Recursion.{iterate}
use fpp_tools.Prelude.I128.{in_i128, ◌/ℤ◌, shift_right_ℤ}
use fpp_tools.Semantics.Data.{
  u8, i8, u16, f32, f64, FppType, primitive_int, float, anon_array, anon_struct, enum_type,
  no_members, member, no_enum_constant_value, Value, primitive_integer_value, integer_value,
  float_value, enum_constant_value, enum_constant, anon_array_value, elements, no_values, value,
  no_value, anon_struct_value, value_member, no_value_members,
}
use fpp_tools.Types.Structure.{underlying_type}
use fpp_tools.Types.Common.{common_type}
use fpp_tools.Values.Integers.{div_by_zero, truncate_int, bit_width, InRange, shift_right}
use fpp_tools.Values.Integers.Truncation.{SameModulo, truncate_int_lem}
use fpp_tools.Values.Integers.Shifts.{shift_right_lem}
use fpp_tools.Values.Arithmetic.{FloatOps, add, sub, mul, div, negate, add_op, binop}
use fpp_tools.Values.Operands.{get_type}
use fpp_tools.Values.Arithmetic.Exactness.{IsExact, arithmetic-IsExact, div-IsExact, negate-IsExact}
use fpp_tools.Values.Arithmetic.Typing.{binop-common_type}
use fpp_tools.Values.Conversion.{convert_value, conversion_body}
use fpp_tools.Values.Conversion.Equation.{convert_value_ends}
use fpp_tools.Values.Conversion.Conforms.{Conforms}
use fpp_tools.Values.Conversion.Sound.{convert_value-Conforms}

-- Whole numbers of halves in place of the floats: enough to run the operations.
abbrev halves : FloatOps
halves = record {
  f64_add = λ a b. record { bits = a.bits + b.bits };
  f64_sub = λ a b. record { bits = a.bits - b.bits };
  f64_mul = λ a b. record { bits = a.bits * b.bits / 2 };
  f64_div = λ a b. record { bits = a.bits * 2 / b.bits };
  f64_neg = λ a. a;
  f64_of_int = λ n. elim n [ pos k ↦ record { bits = 2 * k } | negsuc k ↦ record { bits = 0 } ];
  f64_to_i32 = λ a. pos (a.bits / 2);
  f64_to_f32 = λ a. a;
  f64_near_zero = λ a. a.bits == 0;
}

-- `enum E { B = 200 }`, of representation type U8.
abbrev b_of_e : Value
b_of_e = enum_constant_value (
    enum_constant "B" (pos 200)
      (enum_type (record { node_id = 7; name = "E" }) u8 no_enum_constant_value))

arithmetic-IsExact_example :
    IsExact (add halves b_of_e (primitive_integer_value (pos 100) u16)) (pos 200 +ℤ pos 100)
    × IsExact (sub halves b_of_e (primitive_integer_value (pos 100) u16)) (pos 200 -ℤ pos 100)
    × IsExact (mul halves b_of_e (primitive_integer_value (pos 100) u16)) (pos 200 *ℤ pos 100)
unfolding fpp_tools.Values.Arithmetic.as_shift_int
arithmetic-IsExact_example =
    arithmetic-IsExact halves b_of_e (primitive_integer_value (pos 100) u16) refl refl

div-IsExact_example :
    ((pos 0 ≡ pos 0) × (div halves b_of_e (integer_value (pos 0)) ≡ err div_by_zero))
    ⊎ (((pos 0 ==ℤ pos 0) ≡ false)
        × IsExact (div halves b_of_e (integer_value (pos 0))) (pos 200 /ℤ pos 0))
unfolding fpp_tools.Values.Arithmetic.as_shift_int
div-IsExact_example = div-IsExact halves b_of_e (integer_value (pos 0)) refl refl

negate-IsExact_example : IsExact (negate halves b_of_e) (pos 0 -ℤ pos 200)
unfolding fpp_tools.Values.Arithmetic.as_shift_int
negate-IsExact_example = negate-IsExact halves b_of_e refl

binop-common_type_example : common_type (primitive_int u8, float f32) ≡ some (float f64)
unfolding binop get_type
binop-common_type_example =
    binop-common_type halves (add_op halves) b_of_e (float_value (record { bits = 3 }) f32)
      {r = float_value (record { bits = 403 }) f64} refl

truncate_int_lem_example :
    InRange i8 (truncate_int (pos 200) i8)
    × SameModulo (2 ^ bit_width i8) (truncate_int (pos 200) i8) (pos 200)
    × (InRange i8 (pos 200) → truncate_int (pos 200) i8 ≡ pos 200)
truncate_int_lem_example = truncate_int_lem (pos 200) i8

shift_right_lem_example : shift_right (negsuc 4) (pos 300) ≡ ok (shift_right_ℤ (negsuc 4) 300)
unfolding in_i128
shift_right_lem_example = shift_right_lem (negsuc 4) 300 refl

-- `{ x = E.B }` converted to `{ x: [2] F32, y: U8 }`: `x` is promoted, `y` is filled in.
abbrev given : Value
given = anon_struct_value (value_member "x" b_of_e no_value_members)

abbrev wanted : FppType
wanted =
    anon_struct
      (member "x" (anon_array (some 2) (float f32)) (member "y" (primitive_int u8) no_members))

abbrev made : Value
made = anon_struct_value (
    value_member "x"
      (anon_array_value (
        elements
          (value (float_value (record { bits = 400 }) f32)
            (value (float_value (record { bits = 400 }) f32) no_values))
          no_value))
      (value_member "y" (primitive_integer_value (pos 0) u8) no_value_members))

converts : convert_value halves (given, wanted) ≡ some made
unfolding convert_value fpp_tools.Types.Structure.is_promotable_to_array
converts = refl

convert_value-Conforms_example : Conforms made (underlying_type wanted)
convert_value-Conforms_example = convert_value-Conforms halves given wanted converts

convert_value_ends_example :
    iterate (conversion_body halves) (λ call. some call.0) 40 (given, wanted)
    ≡ convert_value halves (given, wanted)
unfolding fpp_tools.Types.Measure.weight
convert_value_ends_example =
    convert_value_ends halves (λ call. some call.0) 40 (given, wanted) (omega arith)
