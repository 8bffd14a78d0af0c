-- ===== src/Types/Convert/Relation.antt =====
-- fpp_analysis/src/semantics/types.rs: convertibility of types as the language defines it, by rules,
-- and the proof that `Type::convert` decides it.
use fpp_tools.Prelude.{◌≡◌, true, String, List, [], ◌∷◌, Option, some, ℤ}
use fpp_tools.Semantics.Data.{FppType, string}
use fpp_tools.Types.Structure.{
  StructMember, AnonArrayType, underlying_type, identical, is_convertible_to_numeric, is_numeric,
  is_promotable_to_array, is_promotable_to_struct, as_anon_array, as_anon_struct, sizes_match,
  get_member,
}

mutual
  -- On canonical types.
  pub data Converts : FppType → FppType → Type 0 where
    same : {t1 t2 : FppType} → identical t1 t2 ≡ true → Converts t1 t2
    numeric :
        {t1 t2 : FppType}
        → is_convertible_to_numeric t1 ≡ true
        → is_numeric t2 ≡ true
        → Converts t1 t2
    strings : {s1 s2 : Option ℤ} → Converts (string s1) (string s2)
    arrays :
        {t1 t2 : FppType} {a1 a2 : AnonArrayType}
        → as_anon_array t1 ≡ some a1
        → as_anon_array t2 ≡ some a2
        → sizes_match a1.size a2.size ≡ true
        → Converts (underlying_type a1.elt_type) (underlying_type a2.elt_type)
        → Converts t1 t2
    promoted_to_array :
        {t1 t2 : FppType} {a2 : AnonArrayType}
        → is_promotable_to_array t1 ≡ true
        → as_anon_array t2 ≡ some a2
        → Converts t1 (underlying_type a2.elt_type)
        → Converts t1 t2
    structs :
        {t1 t2 : FppType} {ms1 ms2 : List StructMember}
        → as_anon_struct t1 ≡ some ms1
        → as_anon_struct t2 ≡ some ms2
        → MembersConvert ms2 ms1
        → Converts t1 t2
    promoted_to_struct :
        {t1 t2 : FppType} {ms2 : List StructMember}
        → is_promotable_to_struct t1 ≡ true
        → as_anon_struct t2 ≡ some ms2
        → ConvertsToAll t1 ms2
        → Converts t1 t2

  -- Each member has a member of its name among `ms2`, of a type that it converts to.
  pub data MembersConvert : List StructMember → List StructMember → Type 0 where
    none_left : {ms2 : List StructMember} → MembersConvert ms2 []
    found :
        {n : String} {m1 m2 : FppType} {ms1 ms2 : List StructMember}
        → get_member n ms2 ≡ some m2
        → Converts (underlying_type m1) (underlying_type m2)
        → MembersConvert ms2 ms1
        → MembersConvert ms2 ((n, m1) ∷ ms1)

  -- `t1` converts to the type of each member.
  pub data ConvertsToAll : FppType → List StructMember → Type 0 where
    all_done : {t1 : FppType} → ConvertsToAll t1 []
    each :
        {n : String} {t1 m2 : FppType} {ms2 : List StructMember}
        → Converts t1 (underlying_type m2)
        → ConvertsToAll t1 ms2
        → ConvertsToAll t1 ((n, m2) ∷ ms2)
