-- ===== src/Values/Defaults.antt =====
-- fpp_analysis/src/semantics/types.rs and value.rs: the default values of types, and the arrays made of
-- one element.
use fpp_tools.Prelude.{if◌then◌else◌, String, ℕ, zero, suc, false, Option, none, some, pos}
use fpp_tools.Semantics.Data.{
  FppType, primitive_int, float, string, boolean, integer, abs, alias, array, anon_array, enum,
  struct, anon_struct, array_type, enum_type, struct_type, TypeMembers, no_members, member, Value,
  primitive_integer_value, abs_type_value, integer_value, float_value, boolean_value, string_value,
  enum_constant_value, anon_array_value, array_value, anon_struct_value, struct_value,
  AnonArrayValue, elements, Values, no_values, value, ValueMembers, no_value_members, value_member,
  no_value, some_value, no_array_value, some_array_value, no_enum_constant_value,
  some_enum_constant_value, no_struct_value, some_struct_value,
}
use text.Mathlib.Text.{◌==◌ as str_eq}

module _ {ℓ κ} {A : Type ℓ} {B : Type κ} where
  -- `Option::map` and the `?` operator.
  abbrev pub map_some : (A → B) → Option A → Option B
  map_some g none = none
  map_some g (some a) = some (g a)

  abbrev pub and_then_some : Option A → (A → Option B) → Option B
  and_then_some none g = none
  and_then_some (some a) g = g a

abbrev pub repeat_value : ℕ → Value → Values
repeat_value zero v = no_values
repeat_value (suc n) v = value v (repeat_value n v)

-- `AnonArrayValue::repeated` and `AnonArrayValue::promoted`.
abbrev pub repeated : Value → ℕ → AnonArrayValue
repeated elt size = elements (repeat_value size elt) no_value

abbrev pub promoted : Value → AnonArrayValue
promoted elt = elements no_values (some_value elt)

unfoldable pub anon_array_of_element : Value → Option ℕ → AnonArrayValue
anon_array_of_element elt none = promoted elt
anon_array_of_element elt (some size) = repeated elt size

-- `IndexMap::insert`: the value of a name that is there is replaced in its place.
abbrev pub insert_member : String → Value → ValueMembers → ValueMembers
insert_member n v no_value_members = value_member n v no_value_members
insert_member n v (value_member k w ms) =
    let rest = insert_member n v ms in
    if str_eq k n then value_member k v ms else value_member k w rest

abbrev pub insert_entries : ValueMembers → ValueMembers → ValueMembers
insert_entries m no_value_members = m
insert_entries m (value_member n v entries) = insert_entries (insert_member n v m) entries

-- The map that the entries give, inserted in order.
abbrev pub from_entries : ValueMembers → ValueMembers
from_entries entries = insert_entries no_value_members entries

unfoldable mutual
  pub default_value : FppType → Option Value
  default_value (primitive_int k) = some (primitive_integer_value (pos 0) k)
  default_value (float k) = some (float_value (record { bits = 0 }) k)
  default_value (string s) = some (string_value "")
  default_value boolean = some (boolean_value false)
  default_value integer = some (integer_value (pos 0))
  default_value (alias n t) = default_value t
  default_value (abs n) = some (abs_type_value n)
  default_value (array (array_type n s t no_array_value)) = none
  default_value (array (array_type n s t (some_array_value v))) = some (array_value v)
  default_value (anon_array s t) =
      and_then_some (default_value t) λ v. map_some (λ size. anon_array_value (repeated v size)) s
  default_value (enum (enum_type n k no_enum_constant_value)) = none
  default_value (enum (enum_type n k (some_enum_constant_value e))) = some (enum_constant_value e)
  default_value (struct (struct_type n ms no_struct_value z)) = none
  default_value (struct (struct_type n ms (some_struct_value v) z)) = some (struct_value v)
  default_value (anon_struct ms) =
      map_some (λ entries. anon_struct_value (from_entries entries)) (default_members ms)

  pub default_members : TypeMembers → Option ValueMembers
  default_members no_members = some no_value_members
  default_members (member n t ms) =
      let rest = default_members ms in
      and_then_some (default_value t) λ v. map_some (value_member n v) rest
