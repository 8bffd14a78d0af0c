-- ===== src/Values/Conversion/Conforms.antt =====
-- fpp_analysis/src/semantics/value.rs: when a value has the shape that a type asks for.
use fpp_tools.Prelude.{
  ℕ, zero, suc, ◌≡◌, refl, true, List, [], ◌∷◌, Option, none, some, String, Bool, ℤ, arith,
}
use fpp_tools.Semantics.Data.{
  IntegerKind, FloatKind, F64, DefNode, FppType, primitive_int, float, string, boolean, integer,
  array, anon_array, struct, anon_struct, array_type, struct_type, TypeMembers, OptionArrayValue,
  OptionStructValue, Value, primitive_integer_value, integer_value, float_value, boolean_value,
  string_value, anon_array_value, array_value, anon_struct_value, struct_value, AnonArrayValue,
  elements, array_elements, struct_members, Values, no_values, value, ValueMembers,
  no_value_members, value_member, no_value, some_value,
}
use fpp_tools.Types.Structure.{StructMember, to_list, underlying_type, sizes_match}
use fpp_tools.Values.Operands.{count_values}
use fpp_tools.Values.Conversion.{same_definition}
use fpp_tools.Values.Defaults.{from_entries, default_value, anon_array_of_element, repeat_value}

mutual
  -- A value conforms to a canonical type: it is a value of the definition that the type names, or one
  -- of its kind, size and members. The members of a struct are inserted in
  -- the order of the type's; one that was filled in holds the default of its type.
  pub data Conforms : Value → FppType → Type 0 where
    primitive_ints :
        {a : ℤ} {k : IntegerKind} → Conforms (primitive_integer_value a k) (primitive_int k)
    integers : {a : ℤ} → Conforms (integer_value a) integer
    floats : {a : F64} {k : FloatKind} → Conforms (float_value a k) (float k)
    booleans : {b : Bool} → Conforms (boolean_value b) boolean
    strings : {s : String} {size : Option ℤ} → Conforms (string_value s) (string size)
    of_definition : {v : Value} {t : FppType} → same_definition v t ≡ true → Conforms v t
    anon_arrays :
        {es : Values} {s : Option ℕ} {t : FppType}
        → sizes_match (some (count_values es)) s ≡ true
        → EachConforms es t
        → Conforms (anon_array_value (elements es no_value)) (anon_array s t)
    scalars :
        {v : Value} {t : FppType}
        → Conforms v (underlying_type t)
        → Conforms (anon_array_value (elements no_values (some_value v))) (anon_array none t)
    arrays :
        {a : AnonArrayValue} {n : DefNode} {s : Option ℕ} {t : FppType} {d : OptionArrayValue}
        → Conforms (anon_array_value a) (anon_array s t)
        → Conforms
            (array_value (array_elements a (array_type n s t d)))
            (array (array_type n s t d))
    anon_structs :
        {ms : ValueMembers} {types : TypeMembers}
        → MembersConform ms (to_list types)
        → Conforms (anon_struct_value (from_entries ms)) (anon_struct types)
    structs :
        {ms : ValueMembers} {n : DefNode} {types : TypeMembers} {d : OptionStructValue}
        {z : List (String × ℕ)}
        → MembersConform ms (to_list types)
        → Conforms
            (struct_value (struct_members (from_entries ms) (struct_type n types d z)))
            (struct (struct_type n types d z))

  pub data EachConforms : Values → FppType → Type 0 where
    no_elements : {t : FppType} → EachConforms no_values t
    element :
        {v : Value} {vs : Values} {t : FppType}
        → Conforms v (underlying_type t)
        → EachConforms vs t
        → EachConforms (value v vs) t

  pub data MembersConform : ValueMembers → List StructMember → Type 0 where
    no_more : MembersConform no_value_members []
    converted :
        {m : String} {v : Value} {t : FppType} {ms : ValueMembers} {types : List StructMember}
        → Conforms v (underlying_type t)
        → MembersConform ms types
        → MembersConform (value_member m v ms) ((m, t) ∷ types)
    defaulted :
        {m : String} {v : Value} {t : FppType} {ms : ValueMembers} {types : List StructMember}
        → default_value t ≡ some v
        → MembersConform ms types
        → MembersConform (value_member m v ms) ((m, t) ∷ types)

pub count_values-repeat_value : (n : ℕ) (v : Value) → count_values (repeat_value n v) ≡ n
count_values-repeat_value zero v = refl
count_values-repeat_value (suc n) v = omega (arith, count_values-repeat_value n v)

repeat_value-EachConforms :
    (n : ℕ) {v : Value} {t : FppType}
    → Conforms v (underlying_type t)
    → EachConforms (repeat_value n v) t
repeat_value-EachConforms zero c = no_elements
repeat_value-EachConforms (suc n) c = element c (repeat_value-EachConforms n c)

-- The array made of one element.
pub anon_array_of_element-Conforms :
    (s : Option ℕ) {v : Value} {t : FppType}
    → Conforms v (underlying_type t)
    → Conforms (anon_array_value (anon_array_of_element v s)) (anon_array s t)
unfolding anon_array_of_element sizes_match
anon_array_of_element-Conforms none c = scalars c
anon_array_of_element-Conforms (some n) {v} c =
    anon_arrays (ground (arith, count_values-repeat_value n v)) (repeat_value-EachConforms n c)
