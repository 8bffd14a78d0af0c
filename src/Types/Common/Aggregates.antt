-- ===== src/Types/Common/Aggregates.antt =====
-- fpp_analysis/src/semantics/types.rs: the rules of `common_type` for enums, arrays and structs give
-- upper bounds.
use fpp_tools.Prelude.{
  ℕ, suc, ◌+◌, ◌<◌, ◌≡◌, refl, subst, true, Option, some, inl, inr, arith, Option-cases,
}
use fpp_tools.Semantics.Data.{
  FppType, primitive_int, array, anon_array, enum, array_type, enum_type,
}
use fpp_tools.Types.Structure.{underlying_type, is_promotable_to_array, as_anon_array, common_size}
use fpp_tools.Types.Measure.{weight}
use fpp_tools.Types.WellFormed.{WellFormed, sizes_match_refl, sizes_match-common_size}
use fpp_tools.Types.Convert.Relation.{arrays, promoted_to_array}
use fpp_tools.Types.Common.{
  common_type, common_type_enumeration, common_type_array, two_anon_arrays, single_anon_array,
}
use fpp_tools.Types.Common.Lift.{Converts-enum, Converts-array}
use fpp_tools.Types.Common.Bounds.{IsUpperBound, BoundsBelow, promotable-canonical}

pub common_type_enumeration-bound :
    (defs : ℕ → FppType) (t1 t2 : FppType) {c : FppType}
    → WellFormed defs t1
    → WellFormed defs t2
    → BoundsBelow defs (weight t1 + weight t2)
    → common_type_enumeration common_type t1 t2 ≡ some c
    → IsUpperBound t1 t2 c
unfolding common_type_enumeration weight underlying_type
common_type_enumeration-bound defs (enum (enum_type n k d)) t2 {c} w1 w2 ih h =
    let below = ih (primitive_int k) t2 c (omega arith) tt w2 h in
    record { left = Converts-enum (enum_type n k d) k refl below.left; right = below.right }
common_type_enumeration-bound defs t1 (enum (enum_type n k d)) {c} w1 w2 ih h =
    let below = ih t1 (primitive_int k) c (omega arith) w1 tt h in
    record { left = below.left; right = Converts-enum (enum_type n k d) k refl below.right }
common_type_enumeration-bound defs _ _ w1 w2 ih h = cc

two_anon_arrays-bound :
    (defs : ℕ → FppType) (s1 s2 : Option ℕ) (e1 e2 : FppType) {c : FppType}
    → WellFormed defs e1
    → WellFormed defs e2
    → BoundsBelow defs (weight (anon_array s1 e1) + weight (anon_array s2 e2))
    → two_anon_arrays common_type s1 e1 s2 e2 ≡ some c
    → IsUpperBound (anon_array s1 e1) (anon_array s2 e2) c
unfolding two_anon_arrays weight underlying_type as_anon_array
two_anon_arrays-bound defs s1 s2 e1 e2 {c} w1 w2 ih h = elim (Option-cases (common_type (e1, e2))) [
  | inl p ↦ absurd (ground arith)
  | inr (e, p) ↦
      let below = ih e1 e2 e (omega arith) w1 w2 p in
      let sizes = sizes_match-common_size s1 s2 (ground arith) in
      let result : anon_array (common_size s1 s2) e ≡ c = ground arith in
      subst (IsUpperBound (anon_array s1 e1) (anon_array s2 e2)) result (record {
        left = arrays refl refl sizes.0 below.left;
        right = arrays refl refl sizes.1 below.right;
      })
]

-- The bound of a scalar and an anonymous array, in this order.
single_anon_array-bound :
    (defs : ℕ → FppType) (s : Option ℕ) (e other : FppType) {c : FppType} (k : ℕ)
    → weight other + weight e < k
    → WellFormed defs e
    → WellFormed defs other
    → BoundsBelow defs k
    → single_anon_array common_type s e other ≡ some c
    → IsUpperBound other (anon_array s e) c
unfolding single_anon_array underlying_type as_anon_array
single_anon_array-bound defs s e other {c} k b we wo ih h =
    elim (Option-cases (common_type (other, e))) [
      | inl p ↦ absurd (ground arith)
      | inr (x, p) ↦
          let below = ih other e x b wo we p in
          let scalar : is_promotable_to_array other ≡ true = ground arith in
          let result : anon_array s x ≡ c = ground arith in
          let same_type = promotable-canonical other scalar in
          subst (IsUpperBound other (anon_array s e)) result (record {
            left = rw same_type (promoted_to_array scalar refl (rw same_type at below.left));
            right = arrays refl refl (sizes_match_refl s) below.right;
          })
    ]

pub swap_bound : {t1 t2 c : FppType} → IsUpperBound t1 t2 c → IsUpperBound t2 t1 c
swap_bound b = record { left = b.right; right = b.left }

pub common_type_array-bound :
    (defs : ℕ → FppType) (t1 t2 : FppType) {c : FppType}
    → WellFormed defs t1
    → WellFormed defs t2
    → BoundsBelow defs (weight t1 + weight t2)
    → common_type_array common_type t1 t2 ≡ some c
    → IsUpperBound t1 t2 c
unfolding common_type_array weight underlying_type
common_type_array-bound defs t1 (array (array_type n s e d)) {c} w1 w2 ih h =
    let below = ih t1 (anon_array s e) c (omega arith) w1 w2.1 h in
    record { left = below.left; right = Converts-array n s e d refl below.right }
common_type_array-bound defs (array (array_type n s e d)) t2 {c} w1 w2 ih h =
    let below = ih (anon_array s e) t2 c (omega arith) w1.1 w2 h in
    record { left = Converts-array n s e d refl below.left; right = below.right }
common_type_array-bound defs (anon_array s1 e1) (anon_array s2 e2) w1 w2 ih h =
    two_anon_arrays-bound defs s1 s2 e1 e2 w1 w2 ih h
common_type_array-bound defs t1 (anon_array s e) w1 w2 ih h =
    single_anon_array-bound defs s e t1 (weight t1 + suc (weight e)) (omega arith) w2 w1 ih h
common_type_array-bound defs (anon_array s e) t2 w1 w2 ih h =
    swap_bound
      (single_anon_array-bound defs s e t2 (suc (weight e) + weight t2) (omega arith) w1 w2 ih h)
common_type_array-bound defs _ _ w1 w2 ih h = cc
