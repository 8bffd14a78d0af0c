-- ===== src/Examples/Types.antt =====
-- fpp_analysis/src/semantics/types.rs: the theorems on types at concrete types.
use fpp_tools.Prelude.{
  ℕ, zero, suc, ◌≡◌, ◌≢◌, ◌↔◌, refl, Bool, true, false, String, List, [], ◌∷◌, Option, none, some,
  ℤ, pos, Result, ok, err, and_then, arith,
}
use fpp_tools.Prelude.Recursion.{iterate}
use fpp_tools.Prelude.I128.{in_i128}
use fpp_tools.Semantics.Data.{
  u8, u16, f32, f64, FppType, primitive_int, float, string, boolean, integer, alias, array, anon_array,
  struct, anon_struct, array_type, struct_type, no_members, member, no_array_value, no_struct_value,
}
use fpp_tools.Types.Structure.{underlying_type, is_displayable}
use fpp_tools.Types.Convert.{is_convertible_to, convert}
use fpp_tools.Types.Convert.Relation.{Converts}
use fpp_tools.Types.Convert.Ends.{is_answer, convert_ends}
use fpp_tools.Types.Convert.Decides.{is_convertible_to_iff}
use fpp_tools.Types.Convert.Reflexive.{is_convertible_to_refl}
use fpp_tools.Types.Common.{common_type, common_type_rules}
use fpp_tools.Types.Common.Equation.{common_type_ends}
use fpp_tools.Types.Common.Theorems.{common_type-upper_bound}
use fpp_tools.Types.Size.{
  Analysis, serialized_size, primitive_serialized_size, length_type, default_string_size, endless,
}
use fpp_tools.Types.Size.Exact.{exact_size, or_zero, serialized_size-exact}
use fpp_tools.Types.Size.Total.{
  serialized_size_ends, serialized_size-displayable, serialized_size-primitive,
}

abbrev no_definitions : ℕ → FppType
no_definitions n = boolean

-- `{ x: U8, y: string size 10 }` and `{ x: F32, z: [3] bool }`.
abbrev first_struct : FppType
first_struct =
    anon_struct (member "x" (primitive_int u8) (member "y" (string (some (pos 10))) no_members))

abbrev second_struct : FppType
second_struct =
    anon_struct (member "x" (float f32) (member "z" (anon_array (some 3) boolean) no_members))

abbrev merged_struct : FppType
merged_struct = anon_struct (
    member "x" (float f64)
      (member "y" (string (some (pos 10))) (member "z" (anon_array (some 3) boolean) no_members)))

common : common_type (first_struct, second_struct) ≡ some merged_struct
unfolding common_type fpp_tools.Types.Structure.identical fpp_tools.Types.Structure.is_canonical
    fpp_tools.Types.Structure.is_float fpp_tools.Types.Structure.is_numeric
    fpp_tools.Types.Common.resolve_t1_member fpp_tools.Types.Structure.get_member
    fpp_tools.Types.Common.members_not_in fpp_tools.Types.Structure.has_member
common = refl

common_type-upper_bound_example :
    (is_convertible_to first_struct merged_struct ≡ true)
    × (is_convertible_to second_struct merged_struct ≡ true)
unfolding fpp_tools.Types.Structure.get_member
common_type-upper_bound_example =
    common_type-upper_bound no_definitions first_struct second_struct (refl, tt, (refl, tt, tt))
      (refl, tt, (refl, tt, tt)) common

-- In place of deeper calls, a type is answered that is not the common type.
common_type_ends_example :
    iterate common_type_rules (λ ts. some integer) 40 (first_struct, second_struct)
    ≡ common_type (first_struct, second_struct)
unfolding fpp_tools.Types.Measure.weight
common_type_ends_example =
    common_type_ends (λ ts. some integer) 40 (first_struct, second_struct) (omega arith)

is_convertible_to_iff_example :
    (is_convertible_to first_struct merged_struct ≡ true)
    ↔ Converts (underlying_type first_struct) (underlying_type merged_struct)
is_convertible_to_iff_example = is_convertible_to_iff first_struct merged_struct

convert_ends_example : is_answer (convert second_struct first_struct) ≡ true
convert_ends_example = convert_ends second_struct first_struct

is_convertible_to_refl_example : is_convertible_to first_struct first_struct ≡ true
unfolding fpp_tools.Types.Structure.get_member
is_convertible_to_refl_example =
    is_convertible_to_refl no_definitions first_struct (refl, tt, (refl, tt, tt))

-- Strings of default size 40, whose lengths are 16-bit.
abbrev framework : Analysis
framework = record {
  framework_type = λ name. some 1;
  framework_constant = λ name. some 2;
  type_map =
      λ n. some (alias (record { node_id = 1; name = "FwSizeStoreType" }) (primitive_int u16));
  int_value = λ n. some (pos 40);
}

-- `struct S { a: [2] string, b: U8 }`, where `a` is itself an array of 3.
abbrev sized_struct : FppType
sized_struct = struct (
    struct_type (record { node_id = 3; name = "S" })
      (member "a"
        (array
          (array_type (record { node_id = 4; name = "A" }) (some 3) (string none) no_array_value))
        (member "b" (primitive_int u8) no_members))
      no_struct_value (("a", 2) ∷ []))

sized : serialized_size 2 framework sized_struct ≡ ok (pos 253)
unfolding serialized_size in_i128 fpp_tools.Prelude.◌+ℤ◌ fpp_tools.Types.Size.primitive_int_size
    fpp_tools.Prelude.◌*ℤ◌ fpp_tools.Types.Size.member_size
sized = refl

serialized_size-exact_example :
    (pos 253
      ≡ exact_size
          (or_zero (and_then (length_type framework) (serialized_size 1 framework)))
          (or_zero (default_string_size framework))
          sized_struct)
    × (in_i128 (pos 253) ≡ true)
serialized_size-exact_example = serialized_size-exact 1 framework sized_struct sized

serialized_size_ends_example :
    (serialized_size 2 framework sized_struct ≢ err endless)
    × (serialized_size 2 framework sized_struct ≡ serialized_size 1 framework sized_struct)
unfolding length_type primitive_serialized_size fpp_tools.Types.Size.primitive_int_bytes
serialized_size_ends_example = serialized_size_ends 1 framework sized_struct (record {
  ty = alias (record { node_id = 1; name = "FwSizeStoreType" }) (primitive_int u16);
  bytes = pos 2;
  declared = refl;
  primitive = refl;
})

serialized_size-displayable_example : is_displayable sized_struct ≡ true
serialized_size-displayable_example = serialized_size-displayable 2 framework sized_struct sized

serialized_size-primitive_example : serialized_size 2 framework (float f32) ≡ ok (pos 4)
unfolding primitive_serialized_size
serialized_size-primitive_example = serialized_size-primitive 2 framework (float f32) refl
