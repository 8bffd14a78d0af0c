-- ===== src/Types/Convert/Ends.antt =====
-- fpp_analysis/src/semantics/types.rs: the recursion of `Type::convert` ends, and its assertions hold.
use fpp_tools.Prelude.{
  ℕ, zero, suc, ◌+◌, ◌<◌, ◌≡◌, refl, sym, subst, Bool, true, false, not, Option, none, some, List, [], ◌∷◌, inl, inr, String,
  arith, Option-cases, All, ok, err, map_err, try_for_each,
}
use fpp_tools.Semantics.Data.{FppType}
use fpp_tools.Types.Structure.{
  StructMember, underlying_type, is_canonical, as_anon_array, as_anon_struct, get_member, sizes_match,
}
use fpp_tools.Types.WellFormed.{is_canonical-underlying_type}
use fpp_tools.Types.Measure.{
  weight, weight-underlying_type, weight-as_anon_array, weight-as_anon_struct, All-get_member,
}
use fpp_tools.Types.Convert.{
  TypeConversionError, TypeConversionResult, array_element, array_element_during_promotion, struct_member,
  assertion_failed, endless, numeric_rule, string_rule, array_rule, struct_rule, conversion_cases,
  may_be_converted, convert_by, convert, unequal_sizes, member_exists_in, promote_to_member,
}
use fpp_tools.Types.Convert.Equation.{may_be_converted-canonical}

-- The error, or one that it wraps, is a failed assertion or a recursion that does not end.
unfoldable pub is_stuck : TypeConversionError → Bool
is_stuck assertion_failed = true
is_stuck endless = true
is_stuck (array_element e) = is_stuck e
is_stuck (array_element_during_promotion e) = is_stuck e
is_stuck (struct_member n e) = is_stuck e
is_stuck e = false

unfoldable pub is_answer : TypeConversionResult → Bool
unfolding is_stuck
is_answer (ok u) = true
is_answer (err e) = not (is_stuck e)

-- What a rule answers, where it applies.
unfoldable is_rule_answer : Option TypeConversionResult → Bool
unfolding is_answer
is_rule_answer none = true
is_rule_answer (some r) = is_answer r

map_err-answer :
    (f : TypeConversionError → TypeConversionError) (r : TypeConversionResult)
    → ((e : TypeConversionError) → is_stuck (f e) ≡ is_stuck e)
    → is_answer r ≡ true
    → is_answer (map_err f r) ≡ true
unfolding is_answer
map_err-answer f (ok u) keeps h = refl
map_err-answer f (err e) keeps h = let same = keeps e in ground arith

array_element-answer :
    (r : TypeConversionResult) → is_answer r ≡ true → is_answer (map_err array_element r) ≡ true
unfolding is_stuck
array_element-answer r h = map_err-answer array_element r (λ e. refl) h

promotion-answer :
    (r : TypeConversionResult)
    → is_answer r ≡ true
    → is_answer (map_err array_element_during_promotion r) ≡ true
unfolding is_stuck
promotion-answer r h = map_err-answer array_element_during_promotion r (λ e. refl) h

struct_member-answer :
    (n : String) (r : TypeConversionResult)
    → is_answer r ≡ true
    → is_answer (map_err (struct_member n) r) ≡ true
unfolding is_stuck
struct_member-answer n r h = map_err-answer (struct_member n) r (λ e. refl) h

try_for_each-answer :
    (f : StructMember → TypeConversionResult) (ms : List StructMember)
    → All (λ m. is_answer (f m) ≡ true) ms
    → is_answer (try_for_each f ms) ≡ true
unfolding is_answer
try_for_each-answer f [] h = refl
try_for_each-answer f (m ∷ ms) (first, rest) =
    let others = try_for_each-answer f ms rest in ground arith

-- Sizes that do not match are both there.
unequal_sizes-answer :
    (s1 s2 : Option ℕ) → sizes_match s1 s2 ≡ false → is_answer (unequal_sizes s1 s2) ≡ true
unfolding sizes_match unequal_sizes is_answer is_stuck
unequal_sizes-answer (some n1) (some n2) h = refl
unequal_sizes-answer none s2 h = ground arith
unequal_sizes-answer (some n1) none h = ground arith

-- `ih` is the claim at smaller types.
module _ (t1 t2 : FppType) (c1 : is_canonical t1 ≡ true)
    (ih : (m1 m2 : FppType)
      → weight m1 + weight m2 < weight t1 + weight t2
      → is_canonical m1 ≡ true
      → is_canonical m2 ≡ true
      → is_answer (may_be_converted (m1, m2)) ≡ true) where
  underlying_answer :
      (m1 m2 : FppType)
      → weight m1 < weight t1
      → weight m2 < weight t2
      → is_answer (may_be_converted (underlying_type m1, underlying_type m2)) ≡ true
  underlying_answer m1 m2 h1 h2 =
      ih (underlying_type m1) (underlying_type m2)
        (omega (arith, weight-underlying_type m1, weight-underlying_type m2))
        (is_canonical-underlying_type m1) (is_canonical-underlying_type m2)

  promoted_answer :
      (m2 : FppType)
      → weight m2 < weight t2
      → is_answer (may_be_converted (t1, underlying_type m2)) ≡ true
  promoted_answer m2 h2 =
      ih t1 (underlying_type m2) (omega (arith, weight-underlying_type m2)) c1
        (is_canonical-underlying_type m2)

  members_answer :
      (ms1 ms2 : List StructMember)
      → All (λ m. weight m.1 < weight t1) ms1
      → All (λ m. weight m.1 < weight t2) ms2
      → All (λ m. is_answer (member_exists_in may_be_converted ms2 m) ≡ true) ms1
  unfolding member_exists_in convert_by is_answer is_stuck
  members_answer [] ms2 h1 h2 = tt
  members_answer ((n, m1) ∷ ms1) ms2 (first, rest) h2 = (
    elim (Option-cases (get_member n ms2)) [
      | inl e ↦ ground arith
      | inr (m2, e) ↦
          let found = All-get_member (λ t. weight t < weight t2) n ms2 h2 e in
          let answer = struct_member-answer n (may_be_converted (underlying_type m1, underlying_type m2))
                (underlying_answer m1 m2 first found) in
          ground arith
    ],
    members_answer ms1 ms2 rest h2,
  )

  promotions_answer :
      (ms2 : List StructMember)
      → All (λ m. weight m.1 < weight t2) ms2
      → All (λ m. is_answer (promote_to_member may_be_converted t1 m) ≡ true) ms2
  unfolding promote_to_member
  promotions_answer [] h2 = tt
  promotions_answer ((n, m2) ∷ ms2) (first, rest) =
      (struct_member-answer n _ (promoted_answer m2 first), promotions_answer ms2 rest)

  array_rule-answer : is_rule_answer (array_rule may_be_converted t1 t2) ≡ true
  unfolding array_rule convert_by is_stuck is_rule_answer
  array_rule-answer = elim (Option-cases (as_anon_array t2)) [
    | inl e2 ↦ ground arith
    | inr (a2, e2) ↦
        let lighter = weight-as_anon_array t2 e2 in
        elim (Option-cases (as_anon_array t1)) [
          | inl e1 ↦
              let answer = promotion-answer (may_be_converted (t1, underlying_type a2.elt_type)) (promoted_answer a2.elt_type lighter) in ground arith
          | inr (a1, e1) ↦
              let answer = array_element-answer (may_be_converted (underlying_type a1.elt_type, underlying_type a2.elt_type))
                (underlying_answer a1.elt_type a2.elt_type (weight-as_anon_array t1 e1) lighter) in
              let sizes = unequal_sizes-answer a1.size a2.size in
              ground arith
        ]
  ]

  struct_rule-answer : is_rule_answer (struct_rule may_be_converted t1 t2) ≡ true
  unfolding struct_rule is_stuck is_rule_answer
  struct_rule-answer = elim (Option-cases (as_anon_struct t2)) [
    | inl e2 ↦ ground arith
    | inr (ms2, e2) ↦
        let lighter = weight-as_anon_struct t2 e2 in
        elim (Option-cases (as_anon_struct t1)) [
          | inl e1 ↦
              let answer = try_for_each-answer (promote_to_member may_be_converted t1) ms2 (promotions_answer ms2 lighter) in ground arith
          | inr (ms1, e1) ↦
              let answer = try_for_each-answer (member_exists_in may_be_converted ms2) ms1
                (members_answer ms1 ms2 (weight-as_anon_struct t1 e1) lighter) in
              ground arith
        ]
  ]

  conversion_cases-answer : is_answer (conversion_cases may_be_converted (t1, t2)) ≡ true
  unfolding conversion_cases numeric_rule string_rule is_rule_answer is_stuck
  conversion_cases-answer =
      let arrays = array_rule-answer in let structs = struct_rule-answer in ground arith

answers_below :
    (k : ℕ) (t1 t2 : FppType)
    → weight t1 + weight t2 < k
    → is_canonical t1 ≡ true
    → is_canonical t2 ≡ true
    → is_answer (may_be_converted (t1, t2)) ≡ true
answers_below zero t1 t2 b c1 c2 = absurd (omega arith)
answers_below (suc k) t1 t2 b c1 c2 =
    subst (λ r. is_answer r ≡ true) (sym (may_be_converted-canonical t1 t2 c1 c2))
      (conversion_cases-answer t1 t2 c1
        λ m1 m2 lighter d1 d2. answers_below k m1 m2 (omega arith) d1 d2)

-- The recursion of `convert` ends on every two types, and no assertion on the way fails: the result is
-- that the type converts, or an error that the source has, with no failed assertion and no exhausted
-- recursion in it at any depth.
pub convert_ends : (from to : FppType) → is_answer (convert from to) ≡ true
unfolding convert
convert_ends from to =
    answers_below (suc (weight (underlying_type from) + weight (underlying_type to)))
      (underlying_type from) (underlying_type to) (omega arith) (is_canonical-underlying_type from)
      (is_canonical-underlying_type to)
