-- ===== src/Types/Convert/Complete.antt =====
-- fpp_analysis/src/semantics/types.rs: `may_be_converted` finds every derivation of convertibility.
use fpp_tools.Prelude.{
  ◌≡◌, refl, ◌∙◌, true, List, Option, none, some, ◌⊎◌, inl, inr, arith, ok, try_for_each, ℤ,
}
use fpp_tools.Semantics.Data.{
  FppType, string, array, anon_array, struct, anon_struct, array_type, struct_type,
}
use fpp_tools.Types.Structure.{
  StructMember, underlying_type, is_canonical, identical, is_convertible_to_numeric, is_numeric, is_promotable_to_array,
  is_promotable_to_struct, as_anon_array, as_anon_struct,
}
use fpp_tools.Types.Convert.{
  Conversion, array_rule, struct_rule, string_rule, conversion_cases, may_be_converted,
  member_exists_in, promote_to_member,
}
use fpp_tools.Types.WellFormed.{is_canonical-underlying_type}
use fpp_tools.Types.Convert.Equation.{may_be_converted-canonical}
use fpp_tools.Types.Convert.Relation.{
  Converts, MembersConvert, ConvertsToAll, same, numeric, strings, arrays, promoted_to_array,
  structs, promoted_to_struct, none_left, found, all_done, each,
}

-- Which rules can apply together.
pub string_rule-cases :
    (t1 t2 : FppType) → (string_rule t1 t2 ≡ none) ⊎ (string_rule t1 t2 ≡ some (ok tt))
unfolding string_rule
string_rule-cases (string s1) (string s2) = inr refl
string_rule-cases _ _ = inl refl

as_anon_array-promotable : (t : FppType) → is_promotable_to_array t ≡ true → as_anon_array t ≡ none
unfolding is_promotable_to_array as_anon_array
as_anon_array-promotable (array (array_type n s t d)) h = cc
as_anon_array-promotable (anon_array s t) h = cc
as_anon_array-promotable _ h = refl

as_anon_struct-promotable :
    (t : FppType) → is_promotable_to_struct t ≡ true → as_anon_struct t ≡ none
unfolding is_promotable_to_struct as_anon_struct
as_anon_struct-promotable (struct (struct_type n ms d z)) h = cc
as_anon_struct-promotable (anon_struct ms) h = cc
as_anon_struct-promotable _ h = refl

as_anon_array-struct :
    (t : FppType) {ms : List StructMember} → as_anon_struct t ≡ some ms → as_anon_array t ≡ none
unfolding as_anon_struct as_anon_array
as_anon_array-struct (struct (struct_type n ms d z)) h = refl
as_anon_array-struct (anon_struct ms) h = refl
as_anon_array-struct _ h = cc

pub string_rule-string :
    (t1 t2 : FppType)
    → string_rule t1 t2 ≡ some (ok tt)
    → (s1 : Option ℤ) × (s2 : Option ℤ) × (t1 ≡ string s1) × (t2 ≡ string s2)
unfolding string_rule
string_rule-string (string s1) (string s2) h = (s1, s2, refl, refl)
string_rule-string _ _ h = cc

module _ (rec : Conversion) (t1 t2 : FppType) where
  conversion_cases-array :
      array_rule rec t1 t2 ≡ some (ok tt) → conversion_cases rec (t1, t2) ≡ ok tt
  unfolding conversion_cases
  conversion_cases-array h = elim (string_rule-cases t1 t2) [
    | inl e ↦ ground arith
    | inr e ↦ ground arith
  ]

  conversion_cases-struct :
      {ms : List StructMember}
      → as_anon_struct t2 ≡ some ms
      → struct_rule rec t1 t2 ≡ some (ok tt)
      → conversion_cases rec (t1, t2) ≡ ok tt
  unfolding conversion_cases
  conversion_cases-struct e2 h = elim (string_rule-cases t1 t2) [
    | inl e ↦ ground (arith, as_anon_array-struct t2 e2)
    | inr e ↦ ground arith
  ]

  conversion_cases-numeric :
      is_convertible_to_numeric t1 ≡ true
      → is_numeric t2 ≡ true
      → conversion_cases rec (t1, t2) ≡ ok tt
  unfolding conversion_cases
  conversion_cases-numeric h1 h2 = ground arith

  conversion_cases-same : identical t1 t2 ≡ true → conversion_cases rec (t1, t2) ≡ ok tt
  unfolding conversion_cases
  conversion_cases-same h = ground arith

conversion_cases-string :
    (rec : Conversion) (s1 s2 : Option ℤ) → conversion_cases rec (string s1, string s2) ≡ ok tt
unfolding conversion_cases
conversion_cases-string rec s1 s2 = ground arith

-- Every derivation on canonical types is found.
mutual
  unfolding array_rule struct_rule promote_to_member

  pub Converts-complete :
      {t1 t2 : FppType}
      → is_canonical t1 ≡ true
      → is_canonical t2 ≡ true
      → Converts t1 t2
      → may_be_converted (t1, t2) ≡ ok tt
  Converts-complete {t1} {t2} c1 c2 (same h) =
      may_be_converted-canonical t1 t2 c1 c2 ∙ conversion_cases-same may_be_converted t1 t2 h
  Converts-complete {t1} {t2} c1 c2 (numeric h1 h2) =
      may_be_converted-canonical t1 t2 c1 c2 ∙ conversion_cases-numeric may_be_converted t1 t2 h1 h2
  Converts-complete c1 c2 (strings {s1} {s2}) =
      may_be_converted-canonical (string s1) (string s2) c1 c2
      ∙ conversion_cases-string may_be_converted s1 s2
  Converts-complete {t1} {t2} c1 c2 (arrays {a1} {a2} e1 e2 s c) =
      may_be_converted-canonical t1 t2 c1 c2
      ∙ conversion_cases-array may_be_converted t1 t2
          (ground (arith, Converts-complete (is_canonical-underlying_type a1.elt_type) (is_canonical-underlying_type a2.elt_type) c))
  Converts-complete {t1} {t2} c1 c2 (promoted_to_array {a2} p e2 c) =
      may_be_converted-canonical t1 t2 c1 c2
      ∙ conversion_cases-array may_be_converted t1 t2
          (ground (arith, as_anon_array-promotable t1 p,
            Converts-complete c1 (is_canonical-underlying_type a2.elt_type) c))
  Converts-complete {t1} {t2} c1 c2 (structs e1 e2 c) =
      may_be_converted-canonical t1 t2 c1 c2
      ∙ conversion_cases-struct may_be_converted t1 t2 e2
          (ground (arith, MembersConvert-complete c))
  Converts-complete {t1} {t2} c1 c2 (promoted_to_struct p e2 c) =
      may_be_converted-canonical t1 t2 c1 c2
      ∙ conversion_cases-struct may_be_converted t1 t2 e2
          (ground (arith, as_anon_struct-promotable t1 p, ConvertsToAll-complete c1 c))

  MembersConvert-complete :
      {ms1 ms2 : List StructMember}
      → MembersConvert ms2 ms1
      → try_for_each (member_exists_in may_be_converted ms2) ms1 ≡ ok tt
  MembersConvert-complete none_left = refl
  MembersConvert-complete (found {m1} {m2} e c cs) =
      ground (arith, Converts-complete (is_canonical-underlying_type m1) (is_canonical-underlying_type m2) c, MembersConvert-complete cs)

  ConvertsToAll-complete :
      {t1 : FppType} {ms2 : List StructMember}
      → is_canonical t1 ≡ true
      → ConvertsToAll t1 ms2
      → try_for_each (promote_to_member may_be_converted t1) ms2 ≡ ok tt
  ConvertsToAll-complete c1 all_done = refl
  ConvertsToAll-complete c1 (each {m2} c cs) =
      ground
        (arith, Converts-complete c1 (is_canonical-underlying_type m2) c,
          ConvertsToAll-complete c1 cs)

pub underlying_complete :
    (m1 m2 : FppType)
    → Converts (underlying_type m1) (underlying_type m2)
    → may_be_converted (underlying_type m1, underlying_type m2) ≡ ok tt
underlying_complete m1 m2 =
    Converts-complete (is_canonical-underlying_type m1) (is_canonical-underlying_type m2)
