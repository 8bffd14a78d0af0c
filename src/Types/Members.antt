-- ===== src/Types/Members.antt =====
-- fpp_analysis/src/semantics/types.rs: looking members up by name in lists of members that the rules
-- for structs build.
use text.Mathlib.Text.{◌==◌ as str_eq}
use text.Mathlib.TextEquality.{eq_iff}
use text.Mathlib.TextPositions.{eq_refl}
use fpp_tools.Prelude.{
  ◌≡◌, refl, sym, ap, subst, String, List, [], ◌∷◌, ◌++◌, Option, none, some, inl, inr, arith,
  Bool-cases, Option-cases, traverse,
}
use fpp_tools.Semantics.Data.{FppType}
use fpp_tools.Types.Structure.{
  StructMember, to_list, from_list, underlying_type, get_member, has_member,
}
use fpp_tools.Types.WellFormed.{Distinct}
use fpp_tools.Types.Common.{members_not_in}
use fpp_tools.Types.Convert.Relation.{Converts, MembersConvert, none_left, found}

pub to_list-from_list : (ms : List StructMember) → to_list (from_list ms) ≡ ms
to_list-from_list [] = refl
to_list-from_list ((n, t) ∷ ms) = ap (λ (r : List StructMember). (n, t) ∷ r) (to_list-from_list ms)

pub get_member_head :
    (n : String) (t : FppType) (ms : List StructMember) → get_member n ((n, t) ∷ ms) ≡ some t
unfolding get_member
get_member_head n t ms = ground (arith, eq_refl n)

-- The name of a later member is not that of the first.
pub get_member_tail :
    (n k : String) (t : FppType) (ms : List StructMember) {u : FppType}
    → get_member n ms ≡ none
    → get_member k ms ≡ some u
    → get_member k ((n, t) ∷ ms) ≡ some u
unfolding get_member
get_member_tail n k t ms absent h = elim (Bool-cases (str_eq n k)) [
  | inl e ↦ absurd (
      let same : n ≡ k = (eq_iff n k).0 e in
      let there : get_member k ms ≡ none = subst (λ m. get_member m ms ≡ none) same absent in
      ground arith)
  | inr e ↦ ground arith
]

pub get_member-append :
    (k : String) (xs ys : List StructMember)
    → get_member k (xs ++ ys)
      ≡ (elim (get_member k xs) [ some t ↦ some t | none ↦ get_member k ys ])
unfolding get_member
get_member-append k [] ys = refl
get_member-append k ((n, t) ∷ xs) ys = ground (arith, get_member-append k xs ys)

-- A name that the first list does not have is found as before.
pub get_member-members_not_in :
    (k : String) (ms1 ms2 : List StructMember)
    → get_member k ms1 ≡ none
    → get_member k (members_not_in ms1 ms2) ≡ get_member k ms2
unfolding get_member has_member members_not_in
get_member-members_not_in k ms1 [] h = refl
get_member-members_not_in k ms1 ((n, t) ∷ ms2) h = elim (Bool-cases (str_eq n k)) [
  | inl e ↦
      let same : n ≡ k = (eq_iff n k).0 e in
      let here : get_member n ms1 ≡ none = subst (λ m. get_member m ms1 ≡ none) (sym same) h in
      ground arith
  | inr e ↦ ground (arith, get_member-members_not_in k ms1 ms2 h)
]

-- The images of members under a map that keeps names.
abbrev pub KeepsNames : (StructMember → Option StructMember) → Type 0
KeepsNames f = (n : String) (t : FppType) (m : StructMember) → f (n, t) ≡ some m → m.0 ≡ n

pub get_member-traverse :
    (f : StructMember → Option StructMember)
    → KeepsNames f
    → (ms : List StructMember) {rs : List StructMember} (k : String) {t : FppType}
    → traverse f ms ≡ some rs
    → get_member k ms ≡ some t
    → (u : FppType) × (get_member k rs ≡ some u) × (f (k, t) ≡ some (k, u))
unfolding get_member
get_member-traverse f keeps [] k h e = cc
get_member-traverse f keeps ((n, t') ∷ ms) {rs} k {t} h e = elim (Option-cases (f (n, t'))) [
  | inl p ↦ absurd (ground arith)
  | inr (m, p) ↦ elim (Option-cases (traverse f ms)) [
    | inl q ↦ absurd (ground arith)
    | inr (rs', q) ↦ elim (Bool-cases (str_eq n k)) [
      | inl a ↦
          let name : n ≡ k = (eq_iff n k).0 a in
          (m.1, ground (arith, keeps n t' m p), ground (arith, keeps n t' m p))
      | inr a ↦
          let (u, b, c) = get_member-traverse f keeps ms k q (ground arith) in
          (u, ground (arith, keeps n t' m p), c)
    ]
  ]
]

pub get_member-traverse-none :
    (f : StructMember → Option StructMember)
    → KeepsNames f
    → (ms : List StructMember) {rs : List StructMember} (k : String) → traverse f ms ≡ some rs
    → get_member k ms ≡ none
    → get_member k rs ≡ none
unfolding get_member
get_member-traverse-none f keeps [] k h e = ground arith
get_member-traverse-none f keeps ((n, t) ∷ ms) k h e = elim (Option-cases (f (n, t))) [
  | inl p ↦ absurd (ground arith)
  | inr (m, p) ↦ elim (Option-cases (traverse f ms)) [
    | inl q ↦ absurd (ground arith)
    | inr (rs', q) ↦
        let later = get_member-traverse-none f keeps ms k q (ground arith) in
        ground (arith, keeps n t m p)
  ]
]

-- Members with distinct names convert where each of them does by its name.
pub MembersConvert-each :
    (ms1 ms2 : List StructMember)
    → Distinct ms1
    → ((k : String) (t : FppType)
        → get_member k ms1 ≡ some t
        → (u : FppType) × (get_member k ms2 ≡ some u)
          × Converts (underlying_type t) (underlying_type u))
    → MembersConvert ms2 ms1
MembersConvert-each [] ms2 d h = none_left
MembersConvert-each ((n, t) ∷ ms1) ms2 d h =
    let (u, e, c) = h n t (get_member_head n t ms1) in
    found e c (MembersConvert-each ms1 ms2 d.1 λ k t' e'. h k t' (get_member_tail n k t ms1 d.0 e'))
