-- ===== src/Types/Common/Equation.antt =====
-- fpp_analysis/src/semantics/types.rs: the recursion of `common_type` ends, and satisfies the equation
-- that the source writes.
use fpp_tools.Prelude.{
  ℕ, suc, ◌+◌, ◌<◌, ◌≡◌, refl, true, not, ◌||◌, List, [], ◌∷◌, Option, arith, All, Option-cases,
  Bool-cases, inl, inr, traverse-eq, find_map,
}
use fpp_tools.Prelude.Recursion.{CallsBelow, iterate, recurse_lem, iterate-recurse}
use fpp_tools.Semantics.Data.{
  FppType, primitive_int, alias, array, anon_array, enum, struct, anon_struct, array_type,
  enum_type, struct_type, TypeMembers,
}
use fpp_tools.Types.Structure.{StructMember, to_list, underlying_type, is_canonical, get_member}
use fpp_tools.Types.Measure.{
  weight, weight_members, weight-underlying_type, members-below, All-get_member,
}
use fpp_tools.Types.Common.{
  CommonType, common_type_identical, common_type_numeric, common_type_string, common_type_alias,
  common_type_enumeration, common_type_array, common_type_struct, resolve_t1_member,
  two_anon_structs, resolve_member, single_anon_struct, common_type_rules, pair_weight, give_up,
  common_type,
}

-- One of the types is an alias, so the pair of the underlying types weighs less.
pub weight-alias :
    (t1 t2 : FppType)
    → (not (is_canonical t1) || not (is_canonical t2)) ≡ true
    → weight (underlying_type t1) + weight (underlying_type t2) < weight t1 + weight t2
unfolding is_canonical weight underlying_type
weight-alias (alias n t1) t2 h = omega (arith, weight-underlying_type t1, weight-underlying_type t2)
weight-alias t1 (alias n t2) h = omega (arith, weight-underlying_type t1, weight-underlying_type t2)
weight-alias _ _ h = cc

module _ (f g : CommonType) (t1 t2 : FppType)
    (same : (b : FppType × FppType) → pair_weight b < weight t1 + weight t2 → f b ≡ g b) where
  common_type_alias-eq : common_type_alias f t1 t2 ≡ common_type_alias g t1 t2
  unfolding common_type_alias
  common_type_alias-eq = elim (Bool-cases (not (is_canonical t1) || not (is_canonical t2))) [
    | inl e ↦ ground (arith, same (underlying_type t1, underlying_type t2) (weight-alias t1 t2 e))
    | inr e ↦ ground arith
  ]

  resolve_t1_member-eq :
      (ms1 ms2 : List StructMember)
      → All (λ m. weight m.1 < weight t1) ms1
      → All (λ m. weight m.1 < weight t2) ms2
      → All (λ m. resolve_t1_member f ms2 m ≡ resolve_t1_member g ms2 m) ms1
  unfolding resolve_t1_member
  resolve_t1_member-eq [] ms2 h1 h2 = tt
  resolve_t1_member-eq ((n, m1) ∷ ms1) ms2 h1 h2 = (
    elim (Option-cases (get_member n ms2)) [
      | inl e ↦ ground arith
      | inr (m2, e) ↦
          let smaller = All-get_member (λ t. weight t < weight t2) n ms2 h2 e in
          let first = h1.0 in ground (arith, same (m1, m2) (omega (arith, smaller, first)))
    ],
    resolve_t1_member-eq ms1 ms2 h1.1 h2,
  )

  resolve_member-eq :
      (other : FppType) (ms : List StructMember)
      → All (λ m. weight other + weight m.1 < weight t1 + weight t2) ms
      → All (λ m. resolve_member f other m ≡ resolve_member g other m) ms
  unfolding resolve_member
  resolve_member-eq other [] h = tt
  resolve_member-eq other ((n, m) ∷ ms) h =
      (ground (arith, same (other, m) h.0), resolve_member-eq other ms h.1)

All-imp {ℓ κ μ} :
    {A : Type ℓ} {P : A → Type κ} {Q : A → Type μ} (xs : List A)
    → ((a : A) → P a → Q a)
    → All P xs
    → All Q xs
All-imp [] f h = tt
All-imp (x ∷ xs) f h = (f x h.0, All-imp xs f h.1)

-- The recursive calls of `common_type_rules` on (t1, t2) are the same for `f` and `g`.
abbrev SameBelow : CommonType → CommonType → FppType → FppType → Type 0
SameBelow f g t1 t2 = (b : FppType × FppType) → pair_weight b < weight t1 + weight t2 → f b ≡ g b

common_type_enumeration-eq :
    (f g : CommonType) (t1 t2 : FppType)
    → SameBelow f g t1 t2
    → common_type_enumeration f t1 t2 ≡ common_type_enumeration g t1 t2
unfolding common_type_enumeration weight
common_type_enumeration-eq f g (enum (enum_type n k d)) t2 same =
    same (primitive_int k, t2) (omega arith)
common_type_enumeration-eq f g t1 (enum (enum_type n k d)) same =
    same (t1, primitive_int k) (omega arith)
common_type_enumeration-eq f g _ _ same = refl

common_type_array-eq :
    (f g : CommonType) (t1 t2 : FppType)
    → SameBelow f g t1 t2
    → common_type_array f t1 t2 ≡ common_type_array g t1 t2
unfolding common_type_array weight
common_type_array-eq f g t1 (array (array_type n s e d)) same =
    same (t1, anon_array s e) (omega arith)
common_type_array-eq f g (array (array_type n s e d)) t2 same =
    same (anon_array s e, t2) (omega arith)
common_type_array-eq f g (anon_array s1 e1) (anon_array s2 e2) same =
    ground (arith, same (e1, e2) (omega arith))
common_type_array-eq f g t1 (anon_array s e) same = ground (arith, same (t1, e) (omega arith))
common_type_array-eq f g (anon_array s e) t2 same = ground (arith, same (t2, e) (omega arith))
common_type_array-eq f g _ _ same = refl

two_anon_structs-eq :
    (f g : CommonType) (ms1 ms2 : TypeMembers)
    → SameBelow f g (anon_struct ms1) (anon_struct ms2)
    → two_anon_structs f (to_list ms1) (to_list ms2)
      ≡ two_anon_structs g (to_list ms1) (to_list ms2)
unfolding two_anon_structs weight
two_anon_structs-eq f g ms1 ms2 same = ground (
  arith,
  traverse-eq (resolve_t1_member f (to_list ms2)) (resolve_t1_member g (to_list ms2)) (to_list ms1)
      (resolve_t1_member-eq f g (anon_struct ms1) (anon_struct ms2) same (to_list ms1) (to_list ms2)
        (members-below ms1 (suc (weight_members ms1)) (omega arith))
        (members-below ms2 (suc (weight_members ms2)) (omega arith))),
)

single_anon_struct-eq :
    (f g : CommonType) (t1 t2 other : FppType) (ms : TypeMembers)
    → SameBelow f g t1 t2
    → weight other + weight_members ms < weight t1 + weight t2
    → single_anon_struct f (to_list ms) other ≡ single_anon_struct g (to_list ms) other
unfolding single_anon_struct
single_anon_struct-eq f g t1 t2 other ms same h = rw (
    traverse-eq (resolve_member f other) (resolve_member g other) (to_list ms) (
      resolve_member-eq f g t1 t2 same other (to_list ms) (
        All-imp (to_list ms) (λ m (w : weight m.1 < suc (weight_members ms)). omega arith)
          (members-below ms (suc (weight_members ms)) (omega arith)))))

common_type_struct-eq :
    (f g : CommonType) (t1 t2 : FppType)
    → SameBelow f g t1 t2
    → common_type_struct f t1 t2 ≡ common_type_struct g t1 t2
unfolding common_type_struct weight
common_type_struct-eq f g t1 (struct (struct_type n ms d z)) same =
    same (t1, anon_struct ms) (omega arith)
common_type_struct-eq f g (struct (struct_type n ms d z)) t2 same =
    same (anon_struct ms, t2) (omega arith)
common_type_struct-eq f g (anon_struct ms1) (anon_struct ms2) same =
    two_anon_structs-eq f g ms1 ms2 same
common_type_struct-eq f g t1 (anon_struct ms) same =
    single_anon_struct-eq f g t1 (anon_struct ms) t1 ms same (omega arith)
common_type_struct-eq f g (anon_struct ms) t2 same =
    single_anon_struct-eq f g (anon_struct ms) t2 t2 ms same (omega arith)
common_type_struct-eq f g _ _ same = refl

common_type_rules-CallsBelow : CallsBelow pair_weight common_type_rules
unfolding common_type_rules
common_type_rules-CallsBelow f g (t1, t2) same = λ i.
    find_map (λ (o : Option FppType). o)
      (common_type_identical t1 t2
        ∷ common_type_alias-eq f g t1 t2 same i
        ∷ common_type_numeric t1 t2
        ∷ common_type_string t1 t2
        ∷ common_type_enumeration-eq f g t1 t2 same i
        ∷ common_type_array-eq f g t1 t2 same i
        ∷ common_type_struct-eq f g t1 t2 same i
        ∷ [])

-- With enough fuel, `common_type` satisfies the equation of the source, with itself for the recursive
-- calls.
pub common_type_lem : (ts : FppType × FppType) → common_type ts ≡ common_type_rules common_type ts
unfolding common_type
common_type_lem ts =
    recurse_lem pair_weight common_type_rules common_type_rules-CallsBelow give_up ts

-- The recursion of `common_type` ends on every pair of types: the seven rules, run with any number of
-- nested calls above the weight of the two types, give one result, whatever is answered in place of
-- a call that is nested deeper. So the result never rests on such a call, and what the model answers
-- there is not seen.
pub common_type_ends :
    (stuck : CommonType) (fuel : ℕ) (ts : FppType × FppType)
    → pair_weight ts < fuel
    → iterate common_type_rules stuck fuel ts ≡ common_type ts
unfolding common_type
common_type_ends stuck fuel ts enough =
    iterate-recurse pair_weight common_type_rules common_type_rules-CallsBelow give_up stuck fuel ts
      enough
