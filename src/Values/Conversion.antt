-- ===== src/Values/Conversion.antt =====
-- fpp_analysis/src/semantics/value.rs and types.rs: the conversion of values to a type, and the default
-- values. As for types, the source's function is the fixed point of `conversion_body`, whose argument
-- `rec` stands for the recursive calls of `Value::convert`.
pub mod Equation
pub mod Conforms
pub mod Shapes
pub mod Promotion
pub mod Sound
use fpp_tools.Prelude.{
  ℕ, zero, suc, ◌+◌, ◌==◌, String, Bool, true, false, Option, none, some, List, [], ◌∷◌, ℤ, pos,
  if◌then◌else◌,
}
use text.Mathlib.Text.{◌==◌ as str_eq}
use fpp_tools.Prelude.Recursion.{recurse}
use fpp_tools.Semantics.Data.{
  FppType, primitive_int, float, string, boolean, integer, abs, alias, array, anon_array, enum,
  struct, anon_struct, ArrayType, array_type, EnumType, enum_type, StructType, struct_type,
  TypeMembers, no_members, member, Value, primitive_integer_value, abs_type_value, integer_value,
  float_value, boolean_value, string_value, enum_constant_value, anon_array_value, array_value,
  anon_struct_value, struct_value, EnumConstantValue, enum_constant, AnonArrayValue, elements,
  ArrayValue, array_elements, StructValue, struct_members, Values, no_values, value, ValueMembers,
  no_value_members, value_member, OptionValue, no_value, some_value, no_array_value,
  some_array_value, no_enum_constant_value, some_enum_constant_value, no_struct_value,
  some_struct_value,
}
use fpp_tools.Types.Structure.{
  StructMember, to_list, underlying_type, def_node_id, same_node, sizes_match,
  is_promotable_to_array, is_promotable_to_struct,
}
use fpp_tools.Types.Measure.{weight}
use fpp_tools.Values.Arithmetic.{FloatOps}
use fpp_tools.Values.Operands.{get_type, convert_to_rep_type, count_values}
use fpp_tools.Values.Defaults.{
  from_entries, map_some, and_then_some, repeat_value, repeated, promoted, anon_array_of_element,
  default_value, default_members,
}

-- The value is one of the definition that the type names.
unfoldable pub same_definition : Value → FppType → Bool
unfolding def_node_id get_type
same_definition (array_value (array_elements a ty)) t =
    same_node (def_node_id t) (def_node_id (array ty))
same_definition (struct_value (struct_members ms ty)) t =
    same_node (def_node_id t) (def_node_id (struct ty))
same_definition (enum_constant_value (enum_constant n v ty)) t =
    same_node (def_node_id t) (def_node_id (enum ty))
same_definition (abs_type_value n) t = same_node (def_node_id t) (some n.node_id)
same_definition v t = false

unfoldable pub convert_int : FloatOps → ℤ → FppType → Option Value
convert_int f from (primitive_int k) = some (primitive_integer_value from k)
convert_int f from (float k) = some (float_value (f.f64_of_int from) k)
convert_int f from integer = some (integer_value from)
convert_int f from t = none

abbrev pub get_value : String → ValueMembers → Option Value
get_value name no_value_members = none
get_value name (value_member n v ms) =
    let rest = get_value name ms in if str_eq n name then some v else rest

-- `AnonArrayValue::try_map_elements`.
abbrev pub try_map_elements : (Value → Option Value) → Values → Option Values
try_map_elements g no_values = some no_values
try_map_elements g (value v vs) =
    let rest = try_map_elements g vs in and_then_some (g v) λ w. map_some (value w) rest

abbrev pub Convert : Type 0
Convert = Value × FppType → Option Value

module _ (rec : Convert) where
  unfoldable pub convert_to_anon_array : AnonArrayValue → Option ℕ → FppType → Option AnonArrayValue
  unfolding anon_array_of_element sizes_match
  convert_to_anon_array (elements es (some_value scalar)) size elt_type =
      map_some (λ v. anon_array_of_element v size) (rec (scalar, elt_type))
  convert_to_anon_array (elements es no_value) size elt_type =
      if sizes_match (some (count_values es)) size
      then map_some (λ vs. elements vs no_value) (try_map_elements (λ e. rec (e, elt_type)) es)
      else none

  unfoldable pub convert_array : AnonArrayValue → FppType → Option Value
  unfolding convert_to_anon_array
  convert_array a (anon_array s t) = map_some anon_array_value (convert_to_anon_array a s t)
  convert_array a (array (array_type n s t d)) =
      map_some (λ a'. array_value (array_elements a' (array_type n s t d)))
        (convert_to_anon_array a s t)
  convert_array a t = none

  -- The value of one member: that of the value converted, or the default.
  unfoldable pub convert_member : ValueMembers → StructMember → Option Value
  unfolding default_value
  convert_member ms (m, t) = elim (get_value m ms) [ some v ↦ rec (v, t) | none ↦ default_value t ]

  -- The entries of the struct converted to, in order.
  unfoldable pub convert_entries : ValueMembers → List StructMember → Option ValueMembers
  unfolding convert_member
  convert_entries ms [] = some no_value_members
  convert_entries ms ((m, t) ∷ types) =
      let rest = convert_entries ms types in
      and_then_some (convert_member ms (m, t)) λ v. map_some (value_member m v) rest

  unfoldable pub convert_struct : ValueMembers → FppType → Option Value
  unfolding convert_entries
  convert_struct ms (anon_struct types) =
      map_some (λ entries. anon_struct_value (from_entries entries))
        (convert_entries ms (to_list types))
  convert_struct ms (struct (struct_type n types d z)) =
      map_some
        (λ entries. struct_value (struct_members (from_entries entries) (struct_type n types d z)))
        (convert_entries ms (to_list types))
  convert_struct ms t = none

  -- The conversion to a type `t`, with its underlying type `ty`, of a value that is not one of its
  -- definition.
  unfoldable pub convert_other : FloatOps → Value → FppType → FppType → Option Value
  unfolding convert_int convert_array convert_struct convert_to_rep_type
  convert_other f (primitive_integer_value from k) t ty = convert_int f from ty
  convert_other f (integer_value from) t ty = convert_int f from ty
  convert_other f (float_value from k) t (float to_kind) = some (float_value from to_kind)
  convert_other f (float_value from k) t ty = convert_int f (f.f64_to_i32 from) ty
  convert_other f (boolean_value b) t boolean = some (boolean_value b)
  convert_other f (string_value s) t (string size) = some (string_value s)
  convert_other f (enum_constant_value e) t ty = rec (convert_to_rep_type e, t)
  convert_other f (anon_array_value a) t ty = convert_array a ty
  convert_other f (array_value (array_elements a at)) t ty = convert_array a ty
  convert_other f (anon_struct_value ms) t ty = convert_struct ms ty
  convert_other f (struct_value (struct_members ms st)) t ty = convert_struct ms ty
  convert_other f v t ty = none

  unfoldable pub convert_to_distinct_type : FloatOps → Value → FppType → Option Value
  unfolding convert_other same_definition underlying_type
  convert_to_distinct_type f v t =
      let ty = underlying_type t in if same_definition v ty then some v else convert_other f v t ty

  unfoldable pub promote_to_anon_array : Value → Option ℕ → FppType → Option AnonArrayValue
  unfolding anon_array_of_element
  promote_to_anon_array v size elt_type =
      if is_promotable_to_array (get_type v)
      then map_some (λ elt. anon_array_of_element elt size) (rec (v, elt_type))
      else none

  -- The entries of the struct promoted to, in order.
  unfoldable pub promote_members : Value → List StructMember → Option ValueMembers
  promote_members v [] = some no_value_members
  promote_members v ((m, t) ∷ types) =
      let rest = promote_members v types in
      and_then_some (rec (v, t)) λ w. map_some (value_member m w) rest

  unfoldable pub promote_to_anon_struct : Value → List StructMember → Option ValueMembers
  unfolding promote_members
  promote_to_anon_struct v types =
      if is_promotable_to_struct (get_type v) then promote_members v types else none

  unfoldable pub promote_underlying : Value → FppType → Option Value
  unfolding promote_to_anon_array promote_to_anon_struct
  promote_underlying v (anon_array s t) = map_some anon_array_value (promote_to_anon_array v s t)
  promote_underlying v (array (array_type n s t d)) =
      map_some (λ a. array_value (array_elements a (array_type n s t d)))
        (promote_to_anon_array v s t)
  promote_underlying v (anon_struct types) =
      map_some (λ entries. anon_struct_value (from_entries entries))
        (promote_to_anon_struct v (to_list types))
  promote_underlying v (struct (struct_type n types d z)) =
      map_some
        (λ entries. struct_value (struct_members (from_entries entries) (struct_type n types d z)))
        (promote_to_anon_struct v (to_list types))
  promote_underlying v t = none

  unfoldable pub promote_to_aggregate : Value → FppType → Option Value
  unfolding promote_underlying underlying_type
  promote_to_aggregate v t = promote_underlying v (underlying_type t)

unfoldable pub conversion_body : FloatOps → Convert → Convert
unfolding convert_to_distinct_type promote_to_aggregate
conversion_body f rec (v, t) = elim (convert_to_distinct_type rec f v t) [
  | some w ↦ some w
  | none ↦ promote_to_aggregate rec v t
]

-- An enum constant converts as its representation, to the same type.
abbrev pub enum_rank : Value → ℕ
enum_rank (enum_constant_value e) = 1
enum_rank v = 0

abbrev pub conversion_measure : Value × FppType → ℕ
conversion_measure (v, t) = weight t + weight t + enum_rank v

-- `Value::convert`.
unfoldable pub convert_value : FloatOps → Convert
unfolding conversion_body recurse weight
convert_value f = recurse conversion_measure (conversion_body f) (λ _. none)
