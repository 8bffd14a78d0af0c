-- ===== src/Types/Convert/Decides.antt =====
-- fpp_analysis/src/semantics/types.rs: `Type::convert` decides convertibility.
use fpp_tools.Prelude.{
  ℕ, zero, suc, ◌+◌, ◌<◌, ◌≡◌, refl, ◌∙◌, sym, true, ◌&&◌, List, [], ◌∷◌, some, inl, inr, ◌↔◌,
  arith, Bool-cases, Option-cases, All, Result, ok, err, map_err, try_for_each,
}
use fpp_tools.Semantics.Data.{FppType}
use fpp_tools.Types.Structure.{
  StructMember, underlying_type, identical, is_convertible_to_numeric, is_numeric, as_anon_array,
  as_anon_struct, get_member,
}
use fpp_tools.Types.Measure.{
  weight, weight-underlying_type, weight-as_anon_array, weight-as_anon_struct, All-get_member,
}
use fpp_tools.Types.Convert.{
  array_rule, struct_rule, conversion_cases, conversion_rules, may_be_converted, convert_by, member_exists_in,
  promote_to_member, is_convertible_to,
}
use fpp_tools.Types.Convert.Equation.{may_be_converted_lem}
use fpp_tools.Types.Convert.Relation.{
  Converts, MembersConvert, ConvertsToAll, same, numeric, strings, arrays, promoted_to_array,
  structs, promoted_to_struct, none_left, found, all_done, each,
}
use fpp_tools.Types.Convert.Complete.{string_rule-cases, string_rule-string, underlying_complete}

map_err-ok {ℓ κ} :
    {E : Type ℓ} {F : Type κ} (f : E → F) (r : Result (Unit {0}) E)
    → map_err f r ≡ ok tt
    → r ≡ ok tt
map_err-ok f (ok tt) h = refl
map_err-ok f (err e) h = cc

-- Nothing else is found. `ih` is the claim at smaller types.
module _ (t1 t2 : FppType)
    (ih : (m1 m2 : FppType)
      → weight m1 + weight m2 < weight t1 + weight t2
      → may_be_converted (m1, m2) ≡ ok tt
      → Converts m1 m2) where
  elements_sound :
      (m1 m2 : FppType)
      → weight m1 < weight t1
      → weight m2 < weight t2
      → may_be_converted (underlying_type m1, underlying_type m2) ≡ ok tt
      → Converts (underlying_type m1) (underlying_type m2)
  elements_sound m1 m2 h1 h2 =
      ih (underlying_type m1) (underlying_type m2)
        (omega (arith, weight-underlying_type m1, weight-underlying_type m2))

  members_sound :
      (ms1 ms2 : List StructMember)
      → All (λ m. weight m.1 < weight t1) ms1
      → All (λ m. weight m.1 < weight t2) ms2
      → try_for_each (member_exists_in may_be_converted ms2) ms1 ≡ ok tt
      → MembersConvert ms2 ms1
  unfolding convert_by member_exists_in
  members_sound [] ms2 h1 h2 e = none_left
  members_sound ((n, m1) ∷ ms1) ms2 h1 h2 e = elim (Option-cases (get_member n ms2)) [
    | inl p ↦ absurd (ground arith)
    | inr (m2, p) ↦
        found p
          (elements_sound m1 m2 h1.0 (All-get_member (λ t. weight t < weight t2) n ms2 h2 p)
            (ground arith))
          (members_sound ms1 ms2 h1.1 h2 (ground arith))
  ]

  promotion_sound :
      (ms2 : List StructMember)
      → All (λ m. weight m.1 < weight t2) ms2
      → try_for_each (promote_to_member may_be_converted t1) ms2 ≡ ok tt
      → ConvertsToAll t1 ms2
  unfolding promote_to_member
  promotion_sound [] h2 e = all_done
  promotion_sound ((n, m2) ∷ ms2) h2 e =
      each (ih t1 (underlying_type m2) (omega (arith, weight-underlying_type m2)) (ground arith))
        (promotion_sound ms2 h2.1 (ground arith))

  array_sound : array_rule may_be_converted t1 t2 ≡ some (ok tt) → Converts t1 t2
  unfolding array_rule convert_by
  array_sound h = elim (Option-cases (as_anon_array t2)) [
    | inl e2 ↦ absurd (ground arith)
    | inr (a2, e2) ↦ elim (Option-cases (as_anon_array t1)) [
      | inr (a1, e1) ↦ arrays e1 e2 (ground arith) (
          elements_sound a1.elt_type a2.elt_type (weight-as_anon_array t1 e1)
            (weight-as_anon_array t2 e2) (ground arith))
      | inl e1 ↦ promoted_to_array (ground arith) e2 (
          ih t1 (underlying_type a2.elt_type)
            (omega (arith, weight-underlying_type a2.elt_type, weight-as_anon_array t2 e2))
            (ground arith))
    ]
  ]

  struct_sound : struct_rule may_be_converted t1 t2 ≡ some (ok tt) → Converts t1 t2
  unfolding struct_rule
  struct_sound h = elim (Option-cases (as_anon_struct t2)) [
    | inl e2 ↦ absurd (ground arith)
    | inr (ms2, e2) ↦ elim (Option-cases (as_anon_struct t1)) [
      | inr (ms1, e1) ↦ structs e1 e2 (
          members_sound ms1 ms2 (weight-as_anon_struct t1 e1) (weight-as_anon_struct t2 e2)
            (ground arith))
      | inl e1 ↦
          promoted_to_struct (ground arith) e2
            (promotion_sound ms2 (weight-as_anon_struct t2 e2) (ground arith))
    ]
  ]

conversion_cases_sound :
    (t1 t2 : FppType)
    → ((m1 m2 : FppType)
        → weight m1 + weight m2 < weight t1 + weight t2
        → may_be_converted (m1, m2) ≡ ok tt
        → Converts m1 m2)
    → conversion_cases may_be_converted (t1, t2) ≡ ok tt
    → Converts t1 t2
unfolding conversion_cases
conversion_cases_sound t1 t2 ih h = elim (Bool-cases (identical t1 t2)) [
  | inl e ↦ same e
  | inr e ↦ elim (Bool-cases (is_convertible_to_numeric t1 && is_numeric t2)) [
    | inl n ↦ numeric (ground arith) (ground arith)
    | inr n ↦ elim (string_rule-cases t1 t2) [
      | inl s ↦ elim (Option-cases (array_rule may_be_converted t1 t2)) [
        | inr (r, a) ↦ array_sound t1 t2 ih (ground arith)
        | inl a ↦ struct_sound t1 t2 ih (ground arith)
      ]
      | inr s ↦ let (s1, s2, e1, e2) = string_rule-string t1 t2 s in rw (e1, e2) strings
    ]
  ]
]

conversion_rules-passed :
    (t1 t2 : FppType)
    → conversion_rules may_be_converted (t1, t2) ≡ ok tt
    → conversion_cases may_be_converted (t1, t2) ≡ ok tt
unfolding conversion_rules
conversion_rules-passed t1 t2 h = ground arith

converts_below :
    (k : ℕ) (t1 t2 : FppType)
    → weight t1 + weight t2 < k
    → may_be_converted (t1, t2) ≡ ok tt
    → Converts t1 t2
converts_below zero t1 t2 b h = absurd (omega arith)
converts_below (suc k) t1 t2 b h =
    conversion_cases_sound t1 t2 (λ m1 m2 w e. converts_below k m1 m2 (omega arith) e)
      (conversion_rules-passed t1 t2 (sym (may_be_converted_lem (t1, t2)) ∙ h))

pub may_be_converted-Converts :
    (t1 t2 : FppType) → may_be_converted (t1, t2) ≡ ok tt → Converts t1 t2
may_be_converted-Converts t1 t2 = converts_below (suc (weight t1 + weight t2)) t1 t2 (omega arith)

-- `is_convertible_to` accepts two types exactly when, with aliases looked through, a rule of the language
-- converts the first to the second: two identical types; a numeric type or an enum to a numeric
-- type; two strings; arrays whose sizes match and whose elements convert; a scalar to an array or
-- struct to whose parts it converts; structs where each member of the first has, in the second, a
-- member of its name to whose type it converts.
pub is_convertible_to_iff :
    (from to : FppType)
    → (is_convertible_to from to ≡ true) ↔ Converts (underlying_type from) (underlying_type to)
unfolding is_convertible_to
is_convertible_to_iff from to = (
  λ h. may_be_converted-Converts (underlying_type from) (underlying_type to) (ground arith),
  λ c. ground (arith, underlying_complete from to c),
)
