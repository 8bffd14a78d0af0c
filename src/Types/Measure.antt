-- ===== src/Types/Measure.antt =====
-- fpp_analysis/src/semantics/types.rs: a weight of types that falls at every recursive call of the
-- conversion and of the common type, the step from a named type to its structure included.
use text.Mathlib.Text.{◌==◌ as str_eq}
use fpp_tools.Prelude.{
  ℕ, suc, ◌+◌, ◌≤◌, ◌<◌, ◌≡◌, String, List, [], ◌∷◌, some, arith, All, Bool-cases, inl, inr, subst,
}
use fpp_tools.Semantics.Data.{
  FppType, alias, array, anon_array, enum, struct, anon_struct, array_type, struct_type,
  TypeMembers, no_members, member,
}
use fpp_tools.Types.Structure.{
  StructMember, to_list, underlying_type, AnonArrayType, as_anon_array, as_anon_struct, get_member,
}

unfoldable mutual
  pub weight : FppType → ℕ
  weight (alias n t) = suc (weight t)
  weight (array (array_type n s t d)) = suc (suc (weight t))
  weight (anon_array s t) = suc (weight t)
  weight (enum e) = 2
  weight (struct (struct_type n ms d z)) = suc (suc (weight_members ms))
  weight (anon_struct ms) = suc (weight_members ms)
  weight t = 1

  pub weight_members : TypeMembers → ℕ
  weight_members no_members = 0
  weight_members (member n t ms) = weight t + weight_members ms

pub weight-underlying_type : (t : FppType) → weight (underlying_type t) ≤ weight t
unfolding weight underlying_type
weight-underlying_type (alias n t) = omega (arith, weight-underlying_type t)
weight-underlying_type _ = omega arith

pub weight_positive : (t : FppType) → 0 < weight t
unfolding weight
weight_positive (array (array_type n s t d)) = omega arith
weight_positive (struct (struct_type n ms d z)) = omega arith
weight_positive _ = omega arith

pub members-below :
    (ms : TypeMembers) (k : ℕ) → weight_members ms < k → All (λ m. weight m.1 < k) (to_list ms)
unfolding weight
members-below no_members k h = tt
members-below (member n t ms) k h = (omega arith, members-below ms k (omega arith))

pub All-get_member {κ} :
    (P : FppType → Type κ) (name : String) (ms : List StructMember) {t : FppType}
    → All (λ m. P m.1) ms
    → get_member name ms ≡ some t
    → P t
unfolding get_member
All-get_member P name [] h e = cc
All-get_member P name ((k, v) ∷ ms) {t} h e = elim (Bool-cases (str_eq k name)) [
  | inl p ↦ subst P (ground arith) h.0
  | inr p ↦ All-get_member P name ms h.1 (ground arith)
]

pub weight-as_anon_array :
    (t : FppType) {a : AnonArrayType} → as_anon_array t ≡ some a → weight a.elt_type < weight t
unfolding as_anon_array weight
weight-as_anon_array (array (array_type n s t d)) {a} h = ground arith
weight-as_anon_array (anon_array s t) {a} h = ground arith
weight-as_anon_array _ h = cc

pub weight-as_anon_struct :
    (t : FppType) {ms : List StructMember}
    → as_anon_struct t ≡ some ms
    → All (λ m. weight m.1 < weight t) ms
unfolding as_anon_struct weight
weight-as_anon_struct (struct (struct_type n ms d z)) h =
    subst (All (λ m. weight m.1 < suc (suc (weight_members ms)))) (ground arith)
      (members-below ms (suc (suc (weight_members ms))) (omega arith))
weight-as_anon_struct (anon_struct ms) h =
    subst (All (λ m. weight m.1 < suc (weight_members ms))) (ground arith)
      (members-below ms (suc (weight_members ms)) (omega arith))
weight-as_anon_struct _ h = cc
