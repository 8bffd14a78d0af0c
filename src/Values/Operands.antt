-- ===== src/Values/Operands.antt =====
-- fpp_analysis/src/semantics/value.rs: the type of a value, and the representation of an enum constant.
use fpp_tools.Prelude.{ℕ, suc, none, some}
use fpp_tools.Semantics.Data.{
  FppType, primitive_int, float, string, boolean, integer, abs, array, anon_array, enum, struct,
  anon_struct, TypeMembers, no_members, member, enum_type, Value, primitive_integer_value,
  abs_type_value, integer_value, float_value, boolean_value, string_value, enum_constant_value,
  anon_array_value, array_value, anon_struct_value, struct_value, EnumConstantValue, enum_constant,
  elements, array_elements, struct_members, Values, no_values, value, ValueMembers,
  no_value_members, value_member, no_value, some_value,
}

unfoldable pub convert_to_rep_type : EnumConstantValue → Value
convert_to_rep_type (enum_constant n v (enum_type d k e)) = primitive_integer_value v k

-- An enum constant as its representation; any other value as it is.
unfoldable pub represent : Value → Value
unfolding convert_to_rep_type
represent (enum_constant_value e) = convert_to_rep_type e
represent v = v

abbrev pub count_values : Values → ℕ
count_values no_values = 0
count_values (value v vs) = suc (count_values vs)

unfoldable mutual
  pub get_type : Value → FppType
  get_type (primitive_integer_value v k) = primitive_int k
  get_type (integer_value v) = integer
  get_type (float_value v k) = float k
  get_type (boolean_value b) = boolean
  get_type (string_value s) = string none
  get_type (enum_constant_value (enum_constant n v ty)) = enum ty
  get_type (abs_type_value n) = abs n
  get_type (array_value (array_elements a ty)) = array ty
  get_type (struct_value (struct_members ms ty)) = struct ty
  get_type (anon_array_value (elements es (some_value scalar))) = anon_array none (get_type scalar)
  get_type (anon_array_value (elements (value e es) no_value)) =
      anon_array (some (count_values (value e es))) (get_type e)
  get_type (anon_array_value (elements no_values no_value)) = anon_array (some 0) integer
  get_type (anon_struct_value ms) = anon_struct (member_types ms)

  pub member_types : ValueMembers → TypeMembers
  member_types no_value_members = no_members
  member_types (value_member n v ms) = member n (get_type v) (member_types ms)
