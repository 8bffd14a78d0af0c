-- ===== src/Types/Common/Theorems.antt =====
-- fpp_analysis/src/semantics/types.rs: a common type is an upper bound of its two types.
use fpp_tools.Prelude.{
  ℕ, zero, suc, ◌+◌, ◌<◌, ◌≡◌, refl, sym, ap, ◌∙◌, subst, true, List, [], ◌∷◌, Option, some, inl,
  inr, arith, Option-cases, All, traverse, find_map, ◌⊎◌,
}
use fpp_tools.Semantics.Data.{
  FppType, anon_struct, struct, struct_type, TypeMembers, no_members, member,
}
use fpp_tools.Types.Structure.{
  StructMember, to_list, from_list, underlying_type, is_promotable_to_array,
  is_promotable_to_struct, as_anon_struct,
}
use fpp_tools.Types.Measure.{weight, weight_members, All-get_member}
use fpp_tools.Types.WellFormed.{
  WellFormed, WellFormedMembers, WellFormedMembers-All, WellFormedMembers-Distinct,
}
use fpp_tools.Types.Members.{to_list-from_list, get_member-traverse, MembersConvert-each}
use fpp_tools.Types.Convert.{is_convertible_to}
use fpp_tools.Types.Convert.Relation.{ConvertsToAll, structs, promoted_to_struct, all_done, each}
use fpp_tools.Types.Convert.Decides.{is_convertible_to_iff}
use fpp_tools.Types.Common.{
  common_type, common_type_rules, common_type_identical, common_type_alias, common_type_numeric,
  common_type_string, common_type_enumeration, common_type_array, common_type_struct,
  single_anon_struct, resolve_member,
}
use fpp_tools.Types.Common.Equation.{common_type_lem}
use fpp_tools.Types.Common.Lift.{Converts-struct}
use fpp_tools.Types.Common.Bounds.{
  IsUpperBound, BoundsBelow, promotable-canonical, common_type_identical-bound,
  common_type_alias-bound, common_type_numeric-bound, common_type_string-bound,
}
use fpp_tools.Types.Common.Aggregates.{
  common_type_enumeration-bound, common_type_array-bound, swap_bound,
}
use fpp_tools.Types.Common.Structs.{resolve_member-KeepsNames, two_anon_structs-bound}

module _ (defs : ℕ → FppType) (other : FppType) (wo : WellFormed defs other) (k : ℕ)
    (ih : BoundsBelow defs k) where
  -- A scalar converts to each resolved member.
  ConvertsToAll-resolved :
      (ms : List StructMember) {rs : List StructMember}
      → underlying_type other ≡ other
      → All (λ m. weight other + weight m.1 < k) ms
      → All (λ m. WellFormed defs m.1) ms
      → traverse (resolve_member common_type other) ms ≡ some rs
      → ConvertsToAll other rs
  unfolding resolve_member
  ConvertsToAll-resolved [] same b w h = subst (ConvertsToAll other) (ground arith) all_done
  ConvertsToAll-resolved ((n, t) ∷ ms) {rs} same b w h =
      elim (Option-cases (common_type (other, t))) [
        | inl p ↦ absurd (ground arith)
        | inr (c, p) ↦ elim (Option-cases (traverse (resolve_member common_type other) ms)) [
          | inl q ↦ absurd (ground arith)
          | inr (rs', q) ↦
              let result : (n, c) ∷ rs' ≡ rs = ground arith in
              let below = ih other t c b.0 wo w.0 p in
              subst (ConvertsToAll other) result
                (each (rw same at below.left) (ConvertsToAll-resolved ms same b.1 w.1 q))
        ]
      ]

  single_anon_struct-bound :
      (ms : TypeMembers) {c : FppType}
      → All (λ m. weight other + weight m.1 < k) (to_list ms)
      → WellFormedMembers defs ms
      → single_anon_struct common_type (to_list ms) other ≡ some c
      → IsUpperBound other (anon_struct ms) c
  unfolding single_anon_struct underlying_type as_anon_struct is_promotable_to_struct
  single_anon_struct-bound ms {c} b w h =
      elim (Option-cases (traverse (resolve_member common_type other) (to_list ms))) [
        | inl p ↦ absurd (ground arith)
        | inr (rs, p) ↦
            let scalar : is_promotable_to_array other ≡ true = ground arith in
            let same = promotable-canonical other scalar in
            let result : anon_struct (from_list rs) ≡ c = ground arith in
            subst (IsUpperBound other (anon_struct ms)) result (record {
              left = rw same (
                  promoted_to_struct scalar (ap some (to_list-from_list rs)) (
                    ConvertsToAll-resolved (to_list ms) same b (WellFormedMembers-All defs ms w)
                      p));
              right = structs refl (ap some (to_list-from_list rs)) (
                  MembersConvert-each (to_list ms) rs (WellFormedMembers-Distinct defs ms w)
                    λ n t e.
                      let (u, there, image) =
                        get_member-traverse (resolve_member common_type other)
                          (resolve_member-KeepsNames common_type other) (to_list ms) n p e in
                      (
                        u,
                        there,
                        (ih other t u
                            (All-get_member (λ x. weight other + weight x < k) n (to_list ms) b e)
                            wo
                            (All-get_member (WellFormed defs) n (to_list ms)
                              (WellFormedMembers-All defs ms w) e)
                            (unfold resolve_member in ground arith)).right,
                      ));
            })
      ]

weights_below :
    (ms : TypeMembers) (w k : ℕ)
    → w + weight_members ms < k
    → All (λ m. w + weight m.1 < k) (to_list ms)
unfolding weight_members
weights_below no_members w k h = tt
weights_below (member n t ms) w k h = (omega arith, weights_below ms w k (omega arith))

common_type_struct-bound :
    (defs : ℕ → FppType) (t1 t2 : FppType) {c : FppType}
    → WellFormed defs t1
    → WellFormed defs t2
    → BoundsBelow defs (weight t1 + weight t2)
    → common_type_struct common_type t1 t2 ≡ some c
    → IsUpperBound t1 t2 c
unfolding common_type_struct weight underlying_type
common_type_struct-bound defs t1 (struct (struct_type n ms d z)) {c} w1 w2 ih h =
    let below = ih t1 (anon_struct ms) c (omega arith) w1 w2.1 h in
    record { left = below.left; right = Converts-struct n ms d z refl below.right }
common_type_struct-bound defs (struct (struct_type n ms d z)) t2 {c} w1 w2 ih h =
    let below = ih (anon_struct ms) t2 c (omega arith) w1.1 w2 h in
    record { left = Converts-struct n ms d z refl below.left; right = below.right }
common_type_struct-bound defs (anon_struct ms1) (anon_struct ms2) w1 w2 ih h =
    two_anon_structs-bound defs ms1 ms2 w1 w2 (λ m1 m2 c b. ih m1 m2 c (omega arith)) h
common_type_struct-bound defs t1 (anon_struct ms) w1 w2 ih h =
    single_anon_struct-bound defs t1 w1 (weight t1 + suc (weight_members ms)) ih ms
      (weights_below ms (weight t1) (weight t1 + suc (weight_members ms)) (omega arith)) w2 h
common_type_struct-bound defs (anon_struct ms) t2 w1 w2 ih h = swap_bound (
    single_anon_struct-bound defs t2 w2 (suc (weight_members ms) + weight t2) ih ms
      (weights_below ms (weight t2) (suc (weight_members ms) + weight t2) (omega arith)) w1 h)
common_type_struct-bound defs _ _ w1 w2 ih h = cc

-- Some rule gave the result.
find_map-seven :
    (o1 o2 o3 o4 o5 o6 o7 : Option FppType) {c : FppType}
    → find_map (λ (o : Option FppType). o) (o1 ∷ o2 ∷ o3 ∷ o4 ∷ o5 ∷ o6 ∷ o7 ∷ []) ≡ some c
    → (o1 ≡ some c)
      ⊎ (o2 ≡ some c)
      ⊎ (o3 ≡ some c)
      ⊎ (o4 ≡ some c)
      ⊎ (o5 ≡ some c)
      ⊎ (o6 ≡ some c)
      ⊎ (o7 ≡ some c)
find_map-seven o1 o2 o3 o4 o5 o6 o7 h = ground arith

rule_applied :
    (t1 t2 : FppType) {c : FppType}
    → common_type_rules common_type (t1, t2) ≡ some c
    → (common_type_identical t1 t2 ≡ some c)
      ⊎ (common_type_alias common_type t1 t2 ≡ some c)
      ⊎ (common_type_numeric t1 t2 ≡ some c)
      ⊎ (common_type_string t1 t2 ≡ some c)
      ⊎ (common_type_enumeration common_type t1 t2 ≡ some c)
      ⊎ (common_type_array common_type t1 t2 ≡ some c)
      ⊎ (common_type_struct common_type t1 t2 ≡ some c)
unfolding common_type_rules
rule_applied t1 t2 h =
    find_map-seven (common_type_identical t1 t2) (common_type_alias common_type t1 t2)
      (common_type_numeric t1 t2) (common_type_string t1 t2)
      (common_type_enumeration common_type t1 t2) (common_type_array common_type t1 t2)
      (common_type_struct common_type t1 t2) h

common_type_rules-bound :
    (defs : ℕ → FppType) (t1 t2 : FppType) {c : FppType}
    → WellFormed defs t1
    → WellFormed defs t2
    → BoundsBelow defs (weight t1 + weight t2)
    → common_type_rules common_type (t1, t2) ≡ some c
    → IsUpperBound t1 t2 c
common_type_rules-bound defs t1 t2 {c} w1 w2 ih h = elim (rule_applied t1 t2 h) [
  | inl e ↦ common_type_identical-bound defs t1 t2 w1 w2 e
  | inr r1 ↦ elim r1 [
    | inl e ↦ common_type_alias-bound defs t1 t2 w1 w2 ih e
    | inr r2 ↦ elim r2 [
      | inl e ↦ common_type_numeric-bound t1 t2 e
      | inr r3 ↦ elim r3 [
        | inl e ↦ common_type_string-bound t1 t2 e
        | inr r4 ↦ elim r4 [
          | inl e ↦ common_type_enumeration-bound defs t1 t2 w1 w2 ih e
          | inr r5 ↦ elim r5 [
            | inl e ↦ common_type_array-bound defs t1 t2 w1 w2 ih e
            | inr e ↦ common_type_struct-bound defs t1 t2 w1 w2 ih e
          ]
        ]
      ]
    ]
  ]
]

bounds_below : (defs : ℕ → FppType) (k : ℕ) → BoundsBelow defs k
bounds_below defs zero m1 m2 c b w1 w2 h = absurd (omega arith)
bounds_below defs (suc k) m1 m2 c b w1 w2 h =
    common_type_rules-bound defs m1 m2 w1 w2
      (λ t1 t2 d b'. bounds_below defs k t1 t2 d (omega arith)) (sym (common_type_lem (m1, m2)) ∙ h)

-- Where the types are well formed (each definition node has one type, and the members of each
-- struct have distinct names), the common type of two types is one that both convert to.
pub common_type-upper_bound :
    (defs : ℕ → FppType) (t1 t2 : FppType) {c : FppType}
    → WellFormed defs t1
    → WellFormed defs t2
    → common_type (t1, t2) ≡ some c
    → (is_convertible_to t1 c ≡ true) × (is_convertible_to t2 c ≡ true)
common_type-upper_bound defs t1 t2 {c} w1 w2 h =
    let bound = bounds_below defs (suc (weight t1 + weight t2)) t1 t2 c (omega arith) w1 w2 h in
    ((is_convertible_to_iff t1 c).1 bound.left, (is_convertible_to_iff t2 c).1 bound.right)
