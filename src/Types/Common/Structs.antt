-- ===== src/Types/Common/Structs.antt =====
-- fpp_analysis/src/semantics/types.rs: the rule of `common_type` for structs gives upper bounds.
use fpp_tools.Prelude.{
  ℕ, suc, ◌+◌, ◌<◌, ◌≡◌, refl, ap, ◌∙◌, subst, List, ◌++◌, some, inl, inr, arith, Option-cases,
  String, traverse,
}
use fpp_tools.Semantics.Data.{FppType, anon_struct, TypeMembers}
use fpp_tools.Types.Structure.{
  StructMember, to_list, from_list, underlying_type, as_anon_struct, get_member,
}
use fpp_tools.Types.Measure.{weight, weight_members, members-below, All-get_member}
use fpp_tools.Types.WellFormed.{
  WellFormed, WellFormedMembers, WellFormedMembers-All, WellFormedMembers-Distinct,
}
use fpp_tools.Types.Members.{
  to_list-from_list, get_member-append, get_member-members_not_in, get_member-traverse,
  get_member-traverse-none, MembersConvert-each, KeepsNames,
}
use fpp_tools.Types.Convert.Relation.{Converts, structs}
use fpp_tools.Types.Convert.Reflexive.{Converts_refl}
use fpp_tools.Types.Common.{
  CommonType, common_type, two_anon_structs, resolve_t1_member, resolve_member, members_not_in,
}
use fpp_tools.Types.Common.Bounds.{IsUpperBound, BoundsBelow}

resolve_t1_member-KeepsNames :
    (rec : CommonType) (ms2 : List StructMember) → KeepsNames (resolve_t1_member rec ms2)
unfolding resolve_t1_member
resolve_t1_member-KeepsNames rec ms2 n t m h = ground arith

pub resolve_member-KeepsNames :
    (rec : CommonType) (other : FppType) → KeepsNames (resolve_member rec other)
unfolding resolve_member
resolve_member-KeepsNames rec other n t m h = ground arith

module _ (defs : ℕ → FppType) (ms1 ms2 : TypeMembers) (w1 : WellFormedMembers defs ms1)
    (w2 : WellFormedMembers defs ms2)
    (ih : BoundsBelow defs (weight_members ms1 + suc (weight_members ms2))) where
  member_bound :
      (k : String) (t1 t2 c : FppType)
      → get_member k (to_list ms1) ≡ some t1
      → get_member k (to_list ms2) ≡ some t2
      → common_type (t1, t2) ≡ some c
      → IsUpperBound t1 t2 c
  member_bound k t1 t2 c e1 e2 =
      let below1 : weight t1 < suc (weight_members ms1) =
        All-get_member (λ t. weight t < suc (weight_members ms1)) k (to_list ms1)
          (members-below ms1 (suc (weight_members ms1)) (omega arith)) e1 in
      let below2 : weight t2 < suc (weight_members ms2) =
        All-get_member (λ t. weight t < suc (weight_members ms2)) k (to_list ms2)
          (members-below ms2 (suc (weight_members ms2)) (omega arith)) e2 in
      ih t1 t2 c (omega arith)
        (All-get_member (WellFormed defs) k (to_list ms1) (WellFormedMembers-All defs ms1 w1) e1)
        (All-get_member (WellFormed defs) k (to_list ms2) (WellFormedMembers-All defs ms2 w2) e2)

  module _ (rs : List StructMember)
      (resolved : traverse (resolve_t1_member common_type (to_list ms2)) (to_list ms1)
        ≡ some rs) where
    t1_member :
        (k : String) (t : FppType)
        → get_member k (to_list ms1) ≡ some t
        → (u : FppType) × (get_member k (rs ++ members_not_in (to_list ms1) (to_list ms2)) ≡ some u)
          × Converts (underlying_type t) (underlying_type u)
    unfolding resolve_t1_member
    t1_member k t e =
        let (u, there, image) =
          get_member-traverse (resolve_t1_member common_type (to_list ms2))
            (resolve_t1_member-KeepsNames common_type (to_list ms2)) (to_list ms1) k resolved e in
        (
          u,
          rw get_member-append (rw there),
          elim (Option-cases (get_member k (to_list ms2))) [
            | inl e2 ↦
                let own : t ≡ u = ground arith in
                subst (λ x. Converts (underlying_type t) (underlying_type x)) own
                  (Converts_refl defs t (
                    All-get_member (WellFormed defs) k (to_list ms1)
                      (WellFormedMembers-All defs ms1 w1) e))
            | inr (t2, e2) ↦ (member_bound k t t2 u e e2 (ground arith)).left
          ],
        )

    t2_member :
        (k : String) (t : FppType)
        → get_member k (to_list ms2) ≡ some t
        → (u : FppType) × (get_member k (rs ++ members_not_in (to_list ms1) (to_list ms2)) ≡ some u)
          × Converts (underlying_type t) (underlying_type u)
    unfolding resolve_t1_member
    t2_member k t e2 = elim (Option-cases (get_member k (to_list ms1))) [
      | inr (t1, e) ↦
          let (u, there, image) =
            get_member-traverse (resolve_t1_member common_type (to_list ms2))
              (resolve_t1_member-KeepsNames common_type (to_list ms2)) (to_list ms1) k resolved e in
          (u, rw get_member-append (rw there), (member_bound k t1 t u e e2 (ground arith)).right)
      | inl e ↦
          let absent =
            get_member-traverse-none (resolve_t1_member common_type (to_list ms2))
              (resolve_t1_member-KeepsNames common_type (to_list ms2)) (to_list ms1) k resolved e in
          (
            t,
            rw get_member-append
                (rw absent (get_member-members_not_in k (to_list ms1) (to_list ms2) e ∙ e2)),
            Converts_refl defs t (
                All-get_member (WellFormed defs) k (to_list ms2) (WellFormedMembers-All defs ms2 w2)
                  e2),
          )
    ]

  pub two_anon_structs-bound :
      {c : FppType}
      → two_anon_structs common_type (to_list ms1) (to_list ms2) ≡ some c
      → IsUpperBound (anon_struct ms1) (anon_struct ms2) c
  unfolding two_anon_structs underlying_type as_anon_struct
  two_anon_structs-bound {c} h =
      elim (Option-cases (traverse (resolve_t1_member common_type (to_list ms2)) (to_list ms1))) [
        | inl p ↦ absurd (ground arith)
        | inr (rs, p) ↦
            let members = rs ++ members_not_in (to_list ms1) (to_list ms2) in
            let result : anon_struct (from_list members) ≡ c = ground arith in
            subst (IsUpperBound (anon_struct ms1) (anon_struct ms2)) result (record {
              left = structs refl (ap some (to_list-from_list members)) (
                  MembersConvert-each (to_list ms1) members (WellFormedMembers-Distinct defs ms1 w1)
                    (t1_member rs p));
              right = structs refl (ap some (to_list-from_list members)) (
                  MembersConvert-each (to_list ms2) members (WellFormedMembers-Distinct defs ms2 w2)
                    (t2_member rs p));
            })
      ]
