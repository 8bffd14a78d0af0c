-- ===== src/Values/Conversion/Shapes.antt =====
-- fpp_analysis/src/semantics/value.rs: what the conversions of numbers, arrays and structs give conforms
-- to the type, where the conversions of their parts do.
use fpp_tools.Prelude.{
  ℕ, suc, ◌+◌, ◌<◌, ◌≤◌, ◌≡◌, refl, subst, List, [], ◌∷◌, Option, none, some, ℤ, arith, All, inl,
  inr, Bool-cases, Option-cases,
}
use fpp_tools.Semantics.Data.{
  FppType, primitive_int, float, integer, array, anon_array, struct, anon_struct, array_type,
  struct_type, Value, array_value, array_elements, anon_array_value, AnonArrayValue, elements,
  struct_value, struct_members, anon_struct_value, Values, no_values, value, ValueMembers, no_value,
  some_value, value_member,
}
use fpp_tools.Types.Structure.{StructMember, to_list, underlying_type, sizes_match}
use fpp_tools.Types.Measure.{weight, members-below}
use fpp_tools.Values.Arithmetic.{FloatOps}
use fpp_tools.Values.Operands.{count_values}
use fpp_tools.Values.Conversion.{
  Convert, conversion_measure, try_map_elements, get_value, convert_int, convert_to_anon_array,
  convert_array, convert_member, convert_entries, convert_struct,
}
use fpp_tools.Values.Defaults.{from_entries, map_some, and_then_some, anon_array_of_element}
use fpp_tools.Values.Conversion.Equation.{enum_rank_bound}
use fpp_tools.Values.Conversion.Conforms.{
  Conforms, primitive_ints, integers, floats, anon_arrays, arrays, anon_structs, structs,
  EachConforms, no_elements, element, MembersConform, no_more, converted, defaulted,
  anon_array_of_element-Conforms,
}

module _ {ℓ} {A B : Type ℓ} where
  pub map_some-some :
      (o : Option A) (g : A → B) {b : B}
      → map_some g o ≡ some b
      → (a : A) × (o ≡ some a) × (g a ≡ b)
  map_some-some none g h = cc
  map_some-some (some a) g h = (a, refl, cc)

  pub and_then_some-some :
      (o : Option A) (g : A → Option B) {b : B}
      → and_then_some o g ≡ some b
      → (a : A) × (o ≡ some a) × (g a ≡ some b)
  and_then_some-some none g h = cc
  and_then_some-some (some a) g h = (a, refl, h)

pub of_some {ℓ κ} : {A : Type ℓ} (P : A → Type κ) {a b : A} → some a ≡ some b → P a → P b
of_some P {a} {b} h x = let e : a ≡ b = cc in subst P e x

pub convert_int-Conforms :
    (f : FloatOps) (a : ℤ) (t : FppType) {w : Value} → convert_int f a t ≡ some w → Conforms w t
unfolding convert_int
convert_int-Conforms f a (primitive_int k) h =
    of_some (λ w. Conforms w (primitive_int k)) h primitive_ints
convert_int-Conforms f a (float k) h = of_some (λ w. Conforms w (float k)) h floats
convert_int-Conforms f a integer h = of_some (λ w. Conforms w integer) h integers
convert_int-Conforms f a _ h = cc

abbrev pub SoundBelow : Convert → ℕ → Type 0
SoundBelow g n =
    (b : Value × FppType) (w : Value)
    → conversion_measure b < n
    → g b ≡ some w
    → Conforms w (underlying_type b.1)

module _ (g : Convert) (t : FppType) (sound : SoundBelow g (weight t + weight t)) where
  pub call-Conforms :
      (v : Value) (m : FppType) {w : Value}
      → weight m < weight t
      → g (v, m) ≡ some w
      → Conforms w (underlying_type m)
  call-Conforms v m {w} lt h = sound (v, m) w (omega (arith, enum_rank_bound v)) h

  try_map_elements-Conforms :
      (m : FppType) (es : Values) {ws : Values}
      → weight m < weight t
      → try_map_elements (λ e. g (e, m)) es ≡ some ws
      → (count_values ws ≡ count_values es) × EachConforms ws m
  try_map_elements-Conforms m no_values {ws} lt h =
      of_some (λ ws. (count_values ws ≡ 0) × EachConforms ws m) h (refl, no_elements)
  try_map_elements-Conforms m (value v vs) {ws} lt h =
      let (w, e, h') = and_then_some-some (g (v, m)) _ h in
      let (rest, e', h'') = map_some-some (try_map_elements (λ x. g (x, m)) vs) (value w) h' in
      let (count, each) = try_map_elements-Conforms m vs lt e' in
      subst (λ ws. (count_values ws ≡ suc (count_values vs)) × EachConforms ws m) h''
        (omega arith, element (call-Conforms v m lt e) each)

  convert_to_anon_array-Conforms :
      (a : AnonArrayValue) (s : Option ℕ) (m : FppType) {w : AnonArrayValue}
      → weight m < weight t
      → convert_to_anon_array g a s m ≡ some w
      → Conforms (anon_array_value w) (anon_array s m)
  unfolding convert_to_anon_array
  convert_to_anon_array-Conforms (elements es (some_value v)) s m lt h =
      let (x, e, h') = map_some-some (g (v, m)) (λ x. anon_array_of_element x s) h in
      subst (λ w. Conforms (anon_array_value w) (anon_array s m)) h'
        (anon_array_of_element-Conforms s (call-Conforms v m lt e))
  convert_to_anon_array-Conforms (elements es no_value) s m lt h =
      elim (Bool-cases (sizes_match (some (count_values es)) s)) [
        | inl p ↦
            let (ws, e, h') =
              map_some-some (try_map_elements (λ x. g (x, m)) es) (λ vs. elements vs no_value)
                (rw p at h) in
            let (count, each) = try_map_elements-Conforms m es lt e in
            subst (λ w. Conforms (anon_array_value w) (anon_array s m)) h'
              (anon_arrays (rw count p) each)
        | inr p ↦ ground arith
      ]

  pub convert_array-Conforms :
      (a : AnonArrayValue) (ty : FppType) {w : Value}
      → weight ty ≤ weight t
      → convert_array g a ty ≡ some w
      → Conforms w ty
  unfolding convert_array weight
  convert_array-Conforms a (anon_array s m) le h =
      let (x, e, h') = map_some-some (convert_to_anon_array g a s m) anon_array_value h in
      subst (λ w. Conforms w (anon_array s m)) h'
        (convert_to_anon_array-Conforms a s m (omega arith) e)
  convert_array-Conforms a (array (array_type n s m d)) le h =
      let (x, e, h') =
        map_some-some (convert_to_anon_array g a s m)
          (λ x. array_value (array_elements x (array_type n s m d))) h in
      subst (λ w. Conforms w (array (array_type n s m d))) h'
        (arrays (convert_to_anon_array-Conforms a s m (omega arith) e))
  convert_array-Conforms a _ le h = cc

  convert_entries-Conforms :
      (ms : ValueMembers) (types : List StructMember) {ws : ValueMembers}
      → All (λ m. weight m.1 < weight t) types
      → convert_entries g ms types ≡ some ws
      → MembersConform ws types
  unfolding convert_entries convert_member
  convert_entries-Conforms ms [] all h = of_some (λ ws. MembersConform ws []) h no_more
  convert_entries-Conforms ms ((n, m) ∷ types) all h =
      let (w, e, h') = and_then_some-some (convert_member g ms (n, m)) _ h in
      let (rest, e', h'') = map_some-some (convert_entries g ms types) (value_member n w) h' in
      let tail = convert_entries-Conforms ms types all.1 e' in
      subst (λ ws. MembersConform ws ((n, m) ∷ types)) h''
        (elim (Option-cases (get_value n ms)) [
          | inl p ↦ defaulted (rw (convert_member, p) at e) tail
          | inr (v, p) ↦ converted (call-Conforms v m all.0 (rw (convert_member, p) at e)) tail
        ])

  pub convert_struct-Conforms :
      (ms : ValueMembers) (ty : FppType) {w : Value}
      → weight ty ≤ weight t
      → convert_struct g ms ty ≡ some w
      → Conforms w ty
  unfolding convert_struct weight
  convert_struct-Conforms ms (anon_struct types) le h =
      let (ws, e, h') =
        map_some-some (convert_entries g ms (to_list types))
          (λ ws. anon_struct_value (from_entries ws)) h in
      subst (λ w. Conforms w (anon_struct types)) h'
        (anon_structs (
          convert_entries-Conforms ms (to_list types) (members-below types (weight t) (omega arith))
            e))
  convert_struct-Conforms ms (struct (struct_type n types d z)) le h =
      let (ws, e, h') =
        map_some-some (convert_entries g ms (to_list types))
          (λ ws. struct_value (struct_members (from_entries ws) (struct_type n types d z))) h in
      subst (λ w. Conforms w (struct (struct_type n types d z))) h'
        (structs (
          convert_entries-Conforms ms (to_list types) (members-below types (weight t) (omega arith))
            e))
  convert_struct-Conforms ms _ le h = cc
