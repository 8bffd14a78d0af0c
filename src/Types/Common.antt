-- ===== src/Types/Common.antt =====
-- fpp_analysis/src/semantics/types.rs: `Type::common_type` and its seven rules. The source's function
-- is the fixed point of `common_type_rules`, whose argument `rec` stands for the recursive calls.
pub mod Equation
pub mod Lift
pub mod Bounds
pub mod Structs
pub mod Theorems
pub mod Aggregates
use fpp_tools.Prelude.{
  ℕ, ◌+◌, Bool, true, false, not, ◌&&◌, ◌||◌, Option, none, some, List, [], ◌∷◌, ◌++◌,
  if◌then◌else◌, any, find, find_map, traverse,
}
use fpp_tools.Prelude.Recursion.{recurse}
use fpp_tools.Semantics.Data.{
  FloatKind, f64, FppType, primitive_int, float, string, integer, alias, array, anon_array, enum,
  struct, anon_struct, array_type, enum_type, struct_type,
}
use fpp_tools.Types.Structure.{
  StructMember, to_list, from_list, underlying_type, identical, is_canonical, is_float, is_numeric,
  is_promotable_to_array, is_promotable_to_struct, sizes_match, common_size, get_member, has_member,
}
use fpp_tools.Types.Measure.{weight}

abbrev pub CommonType : Type 0
CommonType = FppType × FppType → Option FppType

unfoldable pub common_type_identical : FppType → FppType → Option FppType
common_type_identical t1 t2 = if identical t1 t2 then some t1 else none

-- The ancestors of a type in the alias hierarchy, youngest first.
unfoldable pub get_ancestors : FppType → List FppType
get_ancestors (alias n t) = alias n t ∷ get_ancestors t
get_ancestors t = t ∷ []

-- The first ancestor of `b` that is an ancestor of `a`.
unfoldable pub lca : FppType → FppType → Option FppType
unfolding get_ancestors
lca a b = find (λ bi. any (λ ai. identical ai bi) (get_ancestors a)) (get_ancestors b)

unfoldable pub common_type_numeric : FppType → FppType → Option FppType
common_type_numeric t1 t2 =
    if (is_float t1 && is_numeric t2) || (is_numeric t1 && is_float t2)
    then some (float f64)
    else if is_numeric t1 && is_numeric t2
    then some integer
    else none

unfoldable pub common_type_string : FppType → FppType → Option FppType
common_type_string (string s1) (string s2) = some (string none)
common_type_string t1 t2 = none

-- `StructType::resolve_members`.
abbrev pub resolve_members :
    (StructMember → Option StructMember) → List StructMember → Option (List StructMember)
resolve_members = traverse

-- The members of `ms2` whose names are not those of members of `ms1`.
unfoldable pub members_not_in : List StructMember → List StructMember → List StructMember
members_not_in ms1 [] = []
members_not_in ms1 ((n, t) ∷ ms2) =
    let rest = members_not_in ms1 ms2 in if has_member n ms1 then rest else (n, t) ∷ rest

module _ (rec : CommonType) where
  unfoldable pub common_type_alias : FppType → FppType → Option FppType
  common_type_alias t1 t2 =
      if not (is_canonical t1) || not (is_canonical t2)
      then (elim (lca t1 t2) [
        | some c ↦ some c
        | none ↦ rec (underlying_type t1, underlying_type t2)
      ])
      else none

  unfoldable pub common_type_enumeration : FppType → FppType → Option FppType
  common_type_enumeration (enum (enum_type n k d)) t2 = rec (primitive_int k, t2)
  common_type_enumeration t1 (enum (enum_type n k d)) = rec (t1, primitive_int k)
  common_type_enumeration t1 t2 = none

  unfoldable pub two_anon_arrays : Option ℕ → FppType → Option ℕ → FppType → Option FppType
  two_anon_arrays s1 e1 s2 e2 =
      if sizes_match s1 s2
      then (elim (rec (e1, e2)) [
        | none ↦ none
        | some elt_type ↦ some (anon_array (common_size s1 s2) elt_type)
      ])
      else none

  -- A single anonymous array, in either position.
  unfoldable pub single_anon_array : Option ℕ → FppType → FppType → Option FppType
  single_anon_array s e other =
      if is_promotable_to_array other
      then (elim (rec (other, e)) [ none ↦ none | some elt_type ↦ some (anon_array s elt_type) ])
      else none

  unfoldable pub common_type_array : FppType → FppType → Option FppType
  unfolding two_anon_arrays single_anon_array
  common_type_array t1 (array (array_type n s e d)) = rec (t1, anon_array s e)
  common_type_array (array (array_type n s e d)) t2 = rec (anon_array s e, t2)
  common_type_array (anon_array s1 e1) (anon_array s2 e2) = two_anon_arrays s1 e1 s2 e2
  common_type_array t1 (anon_array s e) = single_anon_array s e t1
  common_type_array (anon_array s e) t2 = single_anon_array s e t2
  common_type_array t1 t2 = none

  -- Resolve a member of the first struct against the members of the second.
  unfoldable pub resolve_t1_member : List StructMember → StructMember → Option StructMember
  resolve_t1_member ms2 (name1, ty1) = elim (get_member name1 ms2) [
    | none ↦ some (name1, ty1)
    | some ty2 ↦ (elim (rec (ty1, ty2)) [ none ↦ none | some ty ↦ some (name1, ty) ])
  ]

  unfoldable pub two_anon_structs : List StructMember → List StructMember → Option FppType
  two_anon_structs ms1 ms2 = elim (resolve_members (resolve_t1_member ms2) ms1) [
    | none ↦ none
    | some resolved ↦ some (anon_struct (from_list (resolved ++ members_not_in ms1 ms2)))
  ]

  unfoldable pub resolve_member : FppType → StructMember → Option StructMember
  resolve_member other (name, t) = elim (rec (other, t)) [ none ↦ none | some ty ↦ some (name, ty) ]

  -- A single anonymous struct, in either position.
  unfoldable pub single_anon_struct : List StructMember → FppType → Option FppType
  single_anon_struct ms other =
      if is_promotable_to_struct other
      then (elim (resolve_members (resolve_member other) ms) [
        | none ↦ none
        | some resolved ↦ some (anon_struct (from_list resolved))
      ])
      else none

  unfoldable pub common_type_struct : FppType → FppType → Option FppType
  unfolding two_anon_structs single_anon_struct
  common_type_struct t1 (struct (struct_type n ms d z)) = rec (t1, anon_struct ms)
  common_type_struct (struct (struct_type n ms d z)) t2 = rec (anon_struct ms, t2)
  common_type_struct (anon_struct ms1) (anon_struct ms2) =
      two_anon_structs (to_list ms1) (to_list ms2)
  common_type_struct t1 (anon_struct ms) = single_anon_struct (to_list ms) t1
  common_type_struct (anon_struct ms) t2 = single_anon_struct (to_list ms) t2
  common_type_struct t1 t2 = none

-- The rules are tried in order, and the first one that gives a type wins.
unfoldable pub common_type_rules : CommonType → CommonType
unfolding common_type_identical common_type_alias common_type_numeric common_type_string
    common_type_enumeration common_type_array common_type_struct
common_type_rules rec (t1, t2) =
    find_map (λ (rule : FppType → FppType → Option FppType). rule t1 t2)
      (common_type_identical
        ∷ common_type_alias rec
        ∷ common_type_numeric
        ∷ common_type_string
        ∷ common_type_enumeration rec
        ∷ common_type_array rec
        ∷ common_type_struct rec
        ∷ [])

abbrev pub pair_weight : FppType × FppType → ℕ
pair_weight (t1, t2) = weight t1 + weight t2

abbrev pub give_up : CommonType
give_up ts = none

unfoldable pub common_type : CommonType
unfolding common_type_rules recurse weight
common_type = recurse pair_weight common_type_rules give_up
