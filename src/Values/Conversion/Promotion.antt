-- ===== src/Values/Conversion/Promotion.antt =====
-- fpp_analysis/src/semantics/value.rs: a promoted value conforms to the type, where the conversions of
-- its parts do.
use fpp_tools.Prelude.{
  ℕ, ◌+◌, ◌<◌, ◌≤◌, ◌≡◌, subst, List, [], ◌∷◌, Option, some, arith, All, inl, inr, Bool-cases,
}
use fpp_tools.Semantics.Data.{
  FppType, array, anon_array, struct, anon_struct, array_type, struct_type, Value, array_value,
  array_elements, anon_array_value, AnonArrayValue, struct_value, struct_members, anon_struct_value,
  ValueMembers, value_member, TypeMembers,
}
use fpp_tools.Types.Structure.{
  StructMember, to_list, is_promotable_to_array, is_promotable_to_struct,
}
use fpp_tools.Types.Measure.{weight, weight_members, members-below}
use fpp_tools.Values.Operands.{get_type}
use fpp_tools.Values.Conversion.{
  Convert, promote_to_anon_array, promote_members, promote_to_anon_struct, promote_underlying,
}
use fpp_tools.Values.Defaults.{from_entries, anon_array_of_element}
use fpp_tools.Values.Conversion.Conforms.{
  Conforms, arrays, anon_structs, structs, MembersConform, no_more, converted,
  anon_array_of_element-Conforms,
}
use fpp_tools.Values.Conversion.Shapes.{
  map_some-some, and_then_some-some, of_some, SoundBelow, call-Conforms,
}

module _ (g : Convert) (t : FppType) (sound : SoundBelow g (weight t + weight t)) where
  promote_members-Conforms :
      (v : Value) (types : List StructMember) {ws : ValueMembers}
      → All (λ m. weight m.1 < weight t) types
      → promote_members g v types ≡ some ws
      → MembersConform ws types
  unfolding promote_members
  promote_members-Conforms v [] all h = of_some (λ ws. MembersConform ws []) h no_more
  promote_members-Conforms v ((n, m) ∷ types) all h =
      let (w, e, h') = and_then_some-some (g (v, m)) _ h in
      let (rest, e', h'') = map_some-some (promote_members g v types) (value_member n w) h' in
      subst (λ ws. MembersConform ws ((n, m) ∷ types)) h''
        (converted (call-Conforms g t sound v m all.0 e)
          (promote_members-Conforms v types all.1 e'))

  promote_to_anon_array-Conforms :
      (v : Value) (s : Option ℕ) (m : FppType) {w : AnonArrayValue}
      → weight m < weight t
      → promote_to_anon_array g v s m ≡ some w
      → Conforms (anon_array_value w) (anon_array s m)
  unfolding promote_to_anon_array
  promote_to_anon_array-Conforms v s m lt h =
      elim (Bool-cases (is_promotable_to_array (get_type v))) [
        | inl p ↦
            let (x, e, h') =
              map_some-some (g (v, m)) (λ elt. anon_array_of_element elt s) (rw p at h) in
            subst (λ w. Conforms (anon_array_value w) (anon_array s m)) h'
              (anon_array_of_element-Conforms s (call-Conforms g t sound v m lt e))
        | inr p ↦ ground arith
      ]

  promote_to_anon_struct-Conforms :
      (v : Value) (types : TypeMembers) {ws : ValueMembers}
      → weight_members types < weight t
      → promote_to_anon_struct g v (to_list types) ≡ some ws
      → MembersConform ws (to_list types)
  unfolding promote_to_anon_struct
  promote_to_anon_struct-Conforms v types lt h =
      elim (Bool-cases (is_promotable_to_struct (get_type v))) [
        | inl p ↦
            promote_members-Conforms v (to_list types) (members-below types (weight t) lt)
              (rw p at h)
        | inr p ↦ ground arith
      ]

  pub promote_underlying-Conforms :
      (v : Value) (ty : FppType) {w : Value}
      → weight ty ≤ weight t
      → promote_underlying g v ty ≡ some w
      → Conforms w ty
  unfolding promote_underlying weight
  promote_underlying-Conforms v (anon_array s m) le h =
      let (x, e, h') = map_some-some (promote_to_anon_array g v s m) anon_array_value h in
      subst (λ w. Conforms w (anon_array s m)) h'
        (promote_to_anon_array-Conforms v s m (omega arith) e)
  promote_underlying-Conforms v (array (array_type n s m d)) le h =
      let (x, e, h') =
        map_some-some (promote_to_anon_array g v s m)
          (λ x. array_value (array_elements x (array_type n s m d))) h in
      subst (λ w. Conforms w (array (array_type n s m d))) h'
        (arrays (promote_to_anon_array-Conforms v s m (omega arith) e))
  promote_underlying-Conforms v (anon_struct types) le h =
      let (ws, e, h') =
        map_some-some (promote_to_anon_struct g v (to_list types))
          (λ ws. anon_struct_value (from_entries ws)) h in
      subst (λ w. Conforms w (anon_struct types)) h'
        (anon_structs (promote_to_anon_struct-Conforms v types (omega arith) e))
  promote_underlying-Conforms v (struct (struct_type n types d z)) le h =
      let (ws, e, h') =
        map_some-some (promote_to_anon_struct g v (to_list types))
          (λ ws. struct_value (struct_members (from_entries ws) (struct_type n types d z))) h in
      subst (λ w. Conforms w (struct (struct_type n types d z))) h'
        (structs (promote_to_anon_struct-Conforms v types (omega arith) e))
  promote_underlying-Conforms v _ le h = cc
