-- ===== src/Types/Convert/Equation.antt =====
-- fpp_analysis/src/semantics/types.rs: the recursion of `may_be_converted` satisfies the equation that
-- the source writes.
use fpp_tools.Prelude.{
  ◌+◌, ◌<◌, ◌≡◌, ap, List, [], ◌∷◌, arith, All, try_for_each-eq, Option-cases, inl, inr, map_err, true, ◌&&◌, if◌then◌else◌, err,
}
use fpp_tools.Prelude.Recursion.{CallsBelow, recurse_lem}
use fpp_tools.Semantics.Data.{FppType}
use fpp_tools.Types.Structure.{
  StructMember, underlying_type, is_canonical, as_anon_array, as_anon_struct, get_member,
}
use fpp_tools.Types.Measure.{
  weight, weight-underlying_type, weight-as_anon_array, weight-as_anon_struct, All-get_member,
}
use fpp_tools.Types.Convert.{
  Conversion, convert_by, array_rule, member_exists_in, promote_to_member, struct_rule,
  conversion_cases, conversion_rules, assertion_failed, pair_weight, give_up, may_be_converted, struct_member,
}

module _ (f g : Conversion) (t1 t2 : FppType)
    (same : (b : FppType × FppType) → pair_weight b < weight t1 + weight t2 → f b ≡ g b) where
  convert_by-eq :
      (m1 m2 : FppType)
      → weight m1 < weight t1
      → weight m2 < weight t2
      → convert_by f m1 m2 ≡ convert_by g m1 m2
  unfolding convert_by
  convert_by-eq m1 m2 h1 h2 =
      same (underlying_type m1, underlying_type m2)
        (omega (arith, weight-underlying_type m1, weight-underlying_type m2))

  promote-eq :
      (m2 : FppType)
      → weight m2 < weight t2
      → f (t1, underlying_type m2) ≡ g (t1, underlying_type m2)
  promote-eq m2 h2 = same (t1, underlying_type m2) (omega (arith, weight-underlying_type m2))

  array_rule-eq : array_rule f t1 t2 ≡ array_rule g t1 t2
  unfolding array_rule
  array_rule-eq = elim (Option-cases (as_anon_array t2)) [
    | inl e2 ↦ ground arith
    | inr (a2, e2) ↦ elim (Option-cases (as_anon_array t1)) [
      | inl e1 ↦ ground (arith, promote-eq a2.elt_type (weight-as_anon_array t2 e2))
      | inr (a1, e1) ↦ ground (
        arith,
        convert_by-eq a1.elt_type a2.elt_type (weight-as_anon_array t1 e1)
            (weight-as_anon_array t2 e2),
      )
    ]
  ]

  member_exists_in-eq :
      (ms1 ms2 : List StructMember)
      → All (λ m. weight m.1 < weight t1) ms1
      → All (λ m. weight m.1 < weight t2) ms2
      → All (λ m. member_exists_in f ms2 m ≡ member_exists_in g ms2 m) ms1
  unfolding member_exists_in
  member_exists_in-eq [] ms2 h1 h2 = tt
  member_exists_in-eq ((n, m1) ∷ ms1) ms2 h1 h2 = (
    elim (Option-cases (get_member n ms2)) [
      | inl e ↦ ground arith
      | inr (m2, e) ↦
          ground (
            arith,
            convert_by-eq m1 m2 h1.0 (All-get_member (λ t. weight t < weight t2) n ms2 h2 e),
          )
    ],
    member_exists_in-eq ms1 ms2 h1.1 h2,
  )

  promote_to_member-eq :
      (ms2 : List StructMember)
      → All (λ m. weight m.1 < weight t2) ms2
      → All (λ m. promote_to_member f t1 m ≡ promote_to_member g t1 m) ms2
  unfolding promote_to_member
  promote_to_member-eq [] h2 = tt
  promote_to_member-eq ((n, m2) ∷ ms2) h2 =
      (ap (map_err (struct_member n)) (promote-eq m2 h2.0), promote_to_member-eq ms2 h2.1)

  struct_rule-eq : struct_rule f t1 t2 ≡ struct_rule g t1 t2
  unfolding struct_rule
  struct_rule-eq = elim (Option-cases (as_anon_struct t2)) [
    | inl e2 ↦ ground arith
    | inr (ms2, e2) ↦ elim (Option-cases (as_anon_struct t1)) [
      | inl e1 ↦ ground (
        arith,
        try_for_each-eq (promote_to_member f t1) (promote_to_member g t1) ms2
            (promote_to_member-eq ms2 (weight-as_anon_struct t2 e2)),
      )
      | inr (ms1, e1) ↦ ground (
        arith,
        try_for_each-eq (member_exists_in f ms2) (member_exists_in g ms2) ms1 (
            member_exists_in-eq ms1 ms2 (weight-as_anon_struct t1 e1)
              (weight-as_anon_struct t2 e2)),
      )
    ]
  ]

conversion_cases-CallsBelow : CallsBelow pair_weight conversion_cases
unfolding conversion_cases
conversion_cases-CallsBelow f g (t1, t2) same =
    rw (array_rule-eq f g t1 t2 same, struct_rule-eq f g t1 t2 same)

conversion_rules-CallsBelow : CallsBelow pair_weight conversion_rules
unfolding conversion_rules
conversion_rules-CallsBelow f g (t1, t2) same =
    ap (λ r. if is_canonical t1 && is_canonical t2 then r else err assertion_failed)
      (conversion_cases-CallsBelow f g (t1, t2) same)

-- With enough fuel, `may_be_converted` satisfies the equation of the source, with itself for the
-- recursive calls.
pub may_be_converted_lem :
    (ts : FppType × FppType) → may_be_converted ts ≡ conversion_rules may_be_converted ts
unfolding may_be_converted
may_be_converted_lem ts =
    recurse_lem pair_weight conversion_rules conversion_rules-CallsBelow give_up ts

-- The assertions hold of canonical types.
pub may_be_converted-canonical :
    (t1 t2 : FppType)
    → is_canonical t1 ≡ true
    → is_canonical t2 ≡ true
    → may_be_converted (t1, t2) ≡ conversion_cases may_be_converted (t1, t2)
unfolding conversion_rules
may_be_converted-canonical t1 t2 h1 h2 =
    let equation = may_be_converted_lem (t1, t2) in ground arith
