-- ===== src/Values/Conversion/Equation.antt =====
-- fpp_analysis/src/semantics/value.rs: the recursion of `Value::convert` ends, and satisfies the
-- equation that the source writes.
use fpp_tools.Prelude.{
  ℕ, ◌+◌, ◌<◌, ◌≤◌, ◌≡◌, refl, List, [], ◌∷◌, Option, none, arith, Option-cases, inl, inr, All,
}
use fpp_tools.Prelude.Recursion.{CallsBelow, iterate, recurse_lem, iterate-recurse}
use fpp_tools.Semantics.Data.{
  FppType, array, anon_array, struct, anon_struct, array_type, struct_type, Value,
  enum_constant_value, enum_constant, enum_type, array_value, array_elements, anon_array_value,
  AnonArrayValue, elements, struct_value, struct_members, anon_struct_value, Values, no_values,
  value, ValueMembers, no_value, some_value,
}
use fpp_tools.Types.Structure.{StructMember, to_list, underlying_type}
use fpp_tools.Types.Measure.{weight, weight-underlying_type, members-below}
use fpp_tools.Values.Arithmetic.{FloatOps}
use fpp_tools.Values.Operands.{convert_to_rep_type}
use fpp_tools.Values.Conversion.{
  Convert, enum_rank, conversion_measure, conversion_body, convert_value, try_map_elements,
  get_value, convert_to_anon_array, convert_array, convert_member, convert_entries, convert_struct,
  convert_other, convert_to_distinct_type, promote_to_anon_array, promote_members,
  promote_to_anon_struct, promote_underlying, promote_to_aggregate,
}

pub enum_rank_bound : (v : Value) → enum_rank v ≤ 1
enum_rank_bound (enum_constant_value e) = omega arith
enum_rank_bound _ = omega arith

module _ (f : FloatOps) (g h : Convert) (t : FppType)
    (same : (b : Value × FppType) → conversion_measure b < weight t + weight t → g b ≡ h b) where
  -- A call at a smaller type.
  call-eq : (v : Value) (m : FppType) → weight m < weight t → g (v, m) ≡ h (v, m)
  call-eq v m lt = same (v, m) (omega (arith, enum_rank_bound v))

  try_map_elements-eq :
      (m : FppType) (es : Values)
      → weight m < weight t
      → try_map_elements (λ e. g (e, m)) es ≡ try_map_elements (λ e. h (e, m)) es
  try_map_elements-eq m no_values lt = refl
  try_map_elements-eq m (value v vs) lt = rw (call-eq v m lt, try_map_elements-eq m vs lt)

  convert_to_anon_array-eq :
      (a : AnonArrayValue) (s : Option ℕ) (m : FppType)
      → weight m < weight t
      → convert_to_anon_array g a s m ≡ convert_to_anon_array h a s m
  unfolding convert_to_anon_array
  convert_to_anon_array-eq (elements es (some_value v)) s m lt = rw (call-eq v m lt)
  convert_to_anon_array-eq (elements es no_value) s m lt = rw (try_map_elements-eq m es lt)

  convert_array-eq :
      (a : AnonArrayValue) (ty : FppType)
      → weight ty ≤ weight t
      → convert_array g a ty ≡ convert_array h a ty
  unfolding convert_array weight
  convert_array-eq a (anon_array s m) le = rw (convert_to_anon_array-eq a s m (omega arith))
  convert_array-eq a (array (array_type n s m d)) le =
      rw (convert_to_anon_array-eq a s m (omega arith))
  convert_array-eq a _ le = refl

  convert_member-eq :
      (ms : ValueMembers) (m : StructMember)
      → weight m.1 < weight t
      → convert_member g ms m ≡ convert_member h ms m
  unfolding convert_member
  convert_member-eq ms (n, m) lt = elim (Option-cases (get_value n ms)) [
    | inl e ↦ ground arith
    | inr (v, e) ↦ ground (arith, call-eq v m lt)
  ]

  convert_entries-eq :
      (ms : ValueMembers) (types : List StructMember)
      → All (λ m. weight m.1 < weight t) types
      → convert_entries g ms types ≡ convert_entries h ms types
  unfolding convert_entries
  convert_entries-eq ms [] all = refl
  convert_entries-eq ms ((n, m) ∷ types) all =
      rw (convert_member-eq ms (n, m) all.0, convert_entries-eq ms types all.1)

  convert_struct-eq :
      (ms : ValueMembers) (ty : FppType)
      → weight ty ≤ weight t
      → convert_struct g ms ty ≡ convert_struct h ms ty
  unfolding convert_struct weight
  convert_struct-eq ms (anon_struct types) le =
      rw (convert_entries-eq ms (to_list types) (members-below types (weight t) (omega arith)))
  convert_struct-eq ms (struct (struct_type n types d z)) le =
      rw (convert_entries-eq ms (to_list types) (members-below types (weight t) (omega arith)))
  convert_struct-eq ms _ le = refl

  promote_to_anon_array-eq :
      (v : Value) (s : Option ℕ) (m : FppType)
      → weight m < weight t
      → promote_to_anon_array g v s m ≡ promote_to_anon_array h v s m
  unfolding promote_to_anon_array
  promote_to_anon_array-eq v s m lt = rw (call-eq v m lt)

  promote_members-eq :
      (v : Value) (types : List StructMember)
      → All (λ m. weight m.1 < weight t) types
      → promote_members g v types ≡ promote_members h v types
  unfolding promote_members
  promote_members-eq v [] all = refl
  promote_members-eq v ((n, m) ∷ types) all =
      rw (call-eq v m all.0, promote_members-eq v types all.1)

  promote_to_anon_struct-eq :
      (v : Value) (types : List StructMember)
      → All (λ m. weight m.1 < weight t) types
      → promote_to_anon_struct g v types ≡ promote_to_anon_struct h v types
  unfolding promote_to_anon_struct
  promote_to_anon_struct-eq v types all = rw (promote_members-eq v types all)

  promote_underlying-eq :
      (v : Value) (ty : FppType)
      → weight ty ≤ weight t
      → promote_underlying g v ty ≡ promote_underlying h v ty
  unfolding promote_underlying weight
  promote_underlying-eq v (anon_array s m) le = rw (promote_to_anon_array-eq v s m (omega arith))
  promote_underlying-eq v (array (array_type n s m d)) le =
      rw (promote_to_anon_array-eq v s m (omega arith))
  promote_underlying-eq v (anon_struct types) le =
      rw
        (promote_to_anon_struct-eq v (to_list types) (members-below types (weight t) (omega arith)))
  promote_underlying-eq v (struct (struct_type n types d z)) le =
      rw
        (promote_to_anon_struct-eq v (to_list types) (members-below types (weight t) (omega arith)))
  promote_underlying-eq v _ le = refl

module _ (f : FloatOps) (g h : Convert) where
  below_type :
      (v : Value) (t : FppType)
      → ((b : Value × FppType) → conversion_measure b < conversion_measure (v, t) → g b ≡ h b)
      → (b : Value × FppType) → conversion_measure b < weight t + weight t
      → g b ≡ h b
  below_type v t same b lt = same b (omega arith)

  convert_other-eq :
      (v : Value) (t : FppType)
      → ((b : Value × FppType) → conversion_measure b < conversion_measure (v, t) → g b ≡ h b)
      → convert_other g f v t (underlying_type t) ≡ convert_other h f v t (underlying_type t)
  unfolding convert_other convert_to_rep_type
  convert_other-eq (enum_constant_value (enum_constant n x (enum_type d k e))) t same =
      same (convert_to_rep_type (enum_constant n x (enum_type d k e)), t) (omega arith)
  convert_other-eq (anon_array_value a) t same =
      convert_array-eq f g h t (below_type (anon_array_value a) t same) a (underlying_type t)
        (weight-underlying_type t)
  convert_other-eq (array_value (array_elements a at)) t same =
      convert_array-eq f g h t (below_type (array_value (array_elements a at)) t same) a
        (underlying_type t) (weight-underlying_type t)
  convert_other-eq (anon_struct_value ms) t same =
      convert_struct-eq f g h t (below_type (anon_struct_value ms) t same) ms (underlying_type t)
        (weight-underlying_type t)
  convert_other-eq (struct_value (struct_members ms st)) t same =
      convert_struct-eq f g h t (below_type (struct_value (struct_members ms st)) t same) ms
        (underlying_type t) (weight-underlying_type t)
  convert_other-eq _ t same = refl

  conversion_body-eq :
      (v : Value) (t : FppType)
      → ((b : Value × FppType) → conversion_measure b < conversion_measure (v, t) → g b ≡ h b)
      → conversion_body f g (v, t) ≡ conversion_body f h (v, t)
  unfolding conversion_body convert_to_distinct_type promote_to_aggregate
  conversion_body-eq v t same = ground (
    arith,
    convert_other-eq v t same,
    promote_underlying-eq f g h t (below_type v t same) v (underlying_type t)
        (weight-underlying_type t),
  )

conversion_body-CallsBelow : (f : FloatOps) → CallsBelow conversion_measure (conversion_body f)
conversion_body-CallsBelow f g h (v, t) same = conversion_body-eq f g h v t same

-- With enough fuel, `Value::convert` satisfies the equation of the source, with itself for the
-- recursive calls.
pub convert_value_lem :
    (f : FloatOps) (a : Value × FppType) → convert_value f a ≡ conversion_body f (convert_value f) a
unfolding convert_value
convert_value_lem f a =
    recurse_lem conversion_measure (conversion_body f) (conversion_body-CallsBelow f) (λ _. none) a

-- The recursion of `Value::convert` ends for every value and type: its cases, run with any number of
-- nested calls above twice the weight of the type and one, for an enum constant, give one result,
-- whatever is answered in place of a call that is nested deeper. So the result never rests on such a
-- call, and what the model answers there is not seen.
pub convert_value_ends :
    (f : FloatOps) (stuck : Convert) (fuel : ℕ) (a : Value × FppType)
    → conversion_measure a < fuel
    → iterate (conversion_body f) stuck fuel a ≡ convert_value f a
unfolding convert_value
convert_value_ends f stuck fuel a enough =
    iterate-recurse conversion_measure (conversion_body f) (conversion_body-CallsBelow f) (λ _. none)
      stuck fuel a enough
