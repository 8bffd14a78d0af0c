-- ===== src/Types/Convert.antt =====
-- fpp_analysis/src/semantics/types.rs: `Type::convert` and `Type::may_be_converted`.
-- The source's function is the fixed point of `conversion_rules`, whose argument `rec` stands for
-- the recursive calls of `may_be_converted`.
pub mod Equation
pub mod Relation
pub mod Complete
pub mod Decides
pub mod Reflexive
pub mod Ends
use fpp_tools.Prelude.{
  ℕ, ◌+◌, String, Bool, true, false, ◌&&◌, Option, none, some, List, if◌then◌else◌, Result, ok, err,
  map_err, is_ok, try_for_each,
}
use fpp_tools.Prelude.Recursion.{recurse}
use fpp_tools.Semantics.Data.{FppType, string}
use fpp_tools.Types.Structure.{
  StructMember, AnonArrayType, underlying_type, identical, is_canonical, is_convertible_to_numeric, is_numeric,
  is_promotable_to_array, is_promotable_to_struct, as_anon_array, as_anon_struct, sizes_match,
  get_member,
}
use fpp_tools.Types.Measure.{weight}

-- The last two have no counterpart in the source: a failed assertion or `expect` panics, and `endless` stands where
-- the recursion goes on beyond the fuel.
pub data TypeConversionError : Type 0 where
  array_size_mismatch : ℕ → ℕ → TypeConversionError
  array_element_during_promotion : TypeConversionError → TypeConversionError
  array_element : TypeConversionError → TypeConversionError
  not_promotable_to_array : FppType → TypeConversionError
  not_promotable_to_struct : FppType → TypeConversionError
  missing_struct_member : String → TypeConversionError
  struct_member : String → TypeConversionError → TypeConversionError
  mismatch : FppType → FppType → TypeConversionError
  assertion_failed endless : TypeConversionError

abbrev pub TypeConversionResult : Type 0
TypeConversionResult = Result (Unit {0}) TypeConversionError

abbrev pub Conversion : Type 0
Conversion = FppType × FppType → TypeConversionResult

unfoldable pub numeric_rule : FppType → FppType → Option TypeConversionResult
numeric_rule t1 t2 = if is_convertible_to_numeric t1 && is_numeric t2 then some (ok tt) else none

unfoldable pub string_rule : FppType → FppType → Option TypeConversionResult
string_rule (string s1) (string s2) = some (ok tt)
string_rule t1 t2 = none

-- The error about two sizes, with an `expect` on each.
unfoldable pub unequal_sizes : Option ℕ → Option ℕ → TypeConversionResult
unequal_sizes (some n1) (some n2) = err (array_size_mismatch n1 n2)
unequal_sizes s1 s2 = err assertion_failed

module _ (rec : Conversion) where
  unfoldable pub convert_by : FppType → FppType → TypeConversionResult
  convert_by from to = rec (underlying_type from, underlying_type to)

  unfoldable pub array_to_array : AnonArrayType → AnonArrayType → TypeConversionResult
  unfolding convert_by unequal_sizes
  array_to_array a1 a2 =
      if sizes_match a1.size a2.size
      then map_err array_element (convert_by a1.elt_type a2.elt_type)
      else unequal_sizes a1.size a2.size

  unfoldable pub promote_to_array : FppType → AnonArrayType → TypeConversionResult
  promote_to_array t1 a2 =
      if is_promotable_to_array t1
      then map_err array_element_during_promotion (rec (t1, underlying_type a2.elt_type))
      else err (not_promotable_to_array t1)

  unfoldable pub array_rule : FppType → FppType → Option TypeConversionResult
  unfolding array_to_array promote_to_array
  array_rule t1 t2 = elim (as_anon_array t2) [
    | none ↦ none
    | some a2 ↦
        some (elim (as_anon_array t1) [
          | some a1 ↦ array_to_array a1 a2
          | none ↦ promote_to_array t1 a2
        ])
  ]

  -- A member of the struct converted from is a member of the other, with a type it converts to.
  unfoldable pub member_exists_in : List StructMember → StructMember → TypeConversionResult
  unfolding convert_by
  member_exists_in members (name, member_type1) = elim (get_member name members) [
    | none ↦ err (missing_struct_member name)
    | some member_type2 ↦ map_err (struct_member name) (convert_by member_type1 member_type2)
  ]

  unfoldable pub promote_to_member : FppType → StructMember → TypeConversionResult
  promote_to_member t1 (name, member_type2) =
      map_err (struct_member name) (rec (t1, underlying_type member_type2))

  unfoldable pub promote_to_struct : FppType → List StructMember → TypeConversionResult
  promote_to_struct t1 members =
      if is_promotable_to_struct t1
      then try_for_each (promote_to_member t1) members
      else err (not_promotable_to_struct t1)

  unfoldable pub struct_rule : FppType → FppType → Option TypeConversionResult
  unfolding member_exists_in promote_to_struct
  struct_rule t1 t2 = elim (as_anon_struct t2) [
    | none ↦ none
    | some ms2 ↦ some (elim (as_anon_struct t1) [
      | some ms1 ↦ try_for_each (member_exists_in ms2) ms1
      | none ↦ promote_to_struct t1 ms2
    ])
  ]

-- `Option::or_else` and `Option::unwrap_or_else`.
abbrev or_else {ℓ} : {A : Type ℓ} → Option A → Option A → Option A
or_else (some a) o = some a
or_else none o = o

abbrev unwrap_or {ℓ} : {A : Type ℓ} → Option A → A → A
unwrap_or (some a) d = a
unwrap_or none d = d

-- What `may_be_converted` does behind its assertions.
unfoldable pub conversion_cases : Conversion → Conversion
unfolding numeric_rule string_rule array_rule struct_rule
conversion_cases rec (t1, t2) =
    let rules =
      or_else (numeric_rule t1 t2)
        (or_else (string_rule t1 t2) (or_else (array_rule rec t1 t2) (struct_rule rec t1 t2))) in
    if identical t1 t2 then ok tt else unwrap_or rules (err (mismatch t1 t2))

-- Both assertions.
unfoldable pub conversion_rules : Conversion → Conversion
unfolding conversion_cases is_canonical
conversion_rules rec (t1, t2) =
    if is_canonical t1 && is_canonical t2
    then conversion_cases rec (t1, t2)
    else err assertion_failed

abbrev pub pair_weight : FppType × FppType → ℕ
pair_weight (t1, t2) = weight t1 + weight t2

abbrev pub give_up : Conversion
give_up ts = err endless

-- `Type::may_be_converted`.
unfoldable pub may_be_converted : Conversion
unfolding conversion_rules recurse weight
may_be_converted = recurse pair_weight conversion_rules give_up

-- `Type::convert`.
unfoldable pub convert : FppType → FppType → TypeConversionResult
unfolding may_be_converted convert_by
convert = convert_by may_be_converted

-- `Type::is_convertible_to`.
unfoldable pub is_convertible_to : FppType → FppType → Bool
unfolding convert
is_convertible_to from to = is_ok (convert from to)
