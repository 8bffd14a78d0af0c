-- ===== src/Types/Common/Bounds.antt =====
-- fpp_analysis/src/semantics/types.rs: what each rule of `common_type` gives is an upper bound of its
-- two types, where the recursive calls give upper bounds.
use fpp_tools.Prelude.{
  ℕ, ◌+◌, ◌<◌, ◌≡◌, refl, sym, ap, ◌∙◌, subst, Bool, true, not, ◌||◌, [], ◌∷◌, none, some, inl, inr,
  arith, Bool-cases, Option-cases, any, find,
}
use fpp_tools.Semantics.Data.{FppType, float, string, alias, abs, enum}
use fpp_tools.Types.Structure.{
  underlying_type, identical, is_canonical, is_float, is_numeric, is_convertible_to_numeric,
  is_promotable_to_array,
}
use fpp_tools.Types.Measure.{weight}
use fpp_tools.Types.WellFormed.{
  WellFormed, WellFormed-underlying_type, identical-eq, underlying_type-underlying_type,
}
use fpp_tools.Types.Convert.Relation.{Converts, numeric, strings}
use fpp_tools.Types.Convert.Reflexive.{Converts_refl}
use fpp_tools.Types.Common.{
  common_type, common_type_identical, get_ancestors, lca, common_type_alias, common_type_numeric,
  common_type_string,
}
use fpp_tools.Types.Common.Equation.{weight-alias}

-- Both types convert to `c`.
pub record IsUpperBound (t1 t2 c : FppType) : Type 0 where
  pub left : Converts (underlying_type t1) (underlying_type c)
  pub right : Converts (underlying_type t2) (underlying_type c)

-- The claim at lighter pairs.
abbrev pub BoundsBelow : (ℕ → FppType) → ℕ → Type 0
BoundsBelow defs k =
    (m1 m2 c : FppType)
    → weight m1 + weight m2 < k
    → WellFormed defs m1
    → WellFormed defs m2
    → common_type (m1, m2) ≡ some c
    → IsUpperBound m1 m2 c

is_numeric-canonical : (t : FppType) → is_numeric t ≡ true → underlying_type t ≡ t
unfolding is_numeric underlying_type
is_numeric-canonical (alias n t) h = cc
is_numeric-canonical _ h = refl

is_numeric-convertible : (t : FppType) → is_numeric t ≡ true → is_convertible_to_numeric t ≡ true
unfolding is_numeric is_convertible_to_numeric
is_numeric-convertible (enum e) h = refl
is_numeric-convertible _ h = h

pub promotable-canonical : (t : FppType) → is_promotable_to_array t ≡ true → underlying_type t ≡ t
unfolding is_promotable_to_array underlying_type
promotable-canonical (alias n t) h = cc
promotable-canonical _ h = refl

numeric_bound :
    (t1 t2 c : FppType)
    → is_numeric t1 ≡ true
    → is_numeric t2 ≡ true
    → is_numeric c ≡ true
    → IsUpperBound t1 t2 c
numeric_bound t1 t2 c h1 h2 hc = record {
  left =
      rw (is_numeric-canonical t1 h1, is_numeric-canonical c hc)
        (numeric (is_numeric-convertible t1 h1) hc);
  right =
      rw (is_numeric-canonical t2 h2, is_numeric-canonical c hc)
        (numeric (is_numeric-convertible t2 h2) hc);
}

is_float-numeric : (t : FppType) → is_float t ≡ true → is_numeric t ≡ true
unfolding is_float is_numeric
is_float-numeric (float k) h = refl
is_float-numeric _ h = cc

is_numeric-common_type_numeric :
    (t1 t2 : FppType) {c : FppType} → common_type_numeric t1 t2 ≡ some c → is_numeric c ≡ true
unfolding common_type_numeric is_numeric
is_numeric-common_type_numeric t1 t2 {c} h = ground arith

pub common_type_numeric-bound :
    (t1 t2 : FppType) {c : FppType} → common_type_numeric t1 t2 ≡ some c → IsUpperBound t1 t2 c
unfolding common_type_numeric
common_type_numeric-bound t1 t2 {c} h =
    numeric_bound t1 t2 c (ground (arith, is_float-numeric t1))
      (ground (arith, is_float-numeric t2)) (is_numeric-common_type_numeric t1 t2 h)

pub common_type_string-bound :
    (t1 t2 : FppType) {c : FppType} → common_type_string t1 t2 ≡ some c → IsUpperBound t1 t2 c
unfolding common_type_string underlying_type
common_type_string-bound (string s1) (string s2) {c} h =
    let result : string none ≡ c = ground arith in
    subst (IsUpperBound (string s1) (string s2)) result (record { left = strings; right = strings })
common_type_string-bound _ _ h = cc

-- What is found among one type.
find_one :
    (defs : ℕ → FppType) (p : FppType → Bool) (t : FppType) {c : FppType}
    → WellFormed defs t
    → find p (t ∷ []) ≡ some c
    → (p c ≡ true) × (underlying_type c ≡ underlying_type t) × WellFormed defs c
find_one defs p t {c} w h =
    let there : t ≡ c = ground arith in
    subst (λ x. (p x ≡ true) × (underlying_type x ≡ underlying_type t) × WellFormed defs x) there
      (ground arith, refl, w)

-- An ancestor of a type has its underlying type, and is well formed.
find_ancestor :
    (defs : ℕ → FppType) (p : FppType → Bool) (t : FppType) {c : FppType}
    → WellFormed defs t
    → find p (get_ancestors t) ≡ some c
    → (p c ≡ true) × (underlying_type c ≡ underlying_type t) × WellFormed defs c
unfolding get_ancestors underlying_type
find_ancestor defs p (alias n t) {c} w h = elim (Bool-cases (p (alias n t))) [
  | inl e ↦
      let there : alias n t ≡ c = ground arith in
      subst (λ x. (p x ≡ true) × (underlying_type x ≡ underlying_type t) × WellFormed defs x) there
        (e, refl, w)
  | inr e ↦ find_ancestor defs p t w.1 (ground arith)
]
find_ancestor defs p (abs n) w h = find_one defs p (abs n) w h
find_ancestor defs p t w h = find_one defs p t w h

any_ancestor :
    (defs : ℕ → FppType) (p : FppType → Bool) (t : FppType)
    → WellFormed defs t
    → any p (get_ancestors t) ≡ true
    → (a : FppType) × (p a ≡ true) × (underlying_type a ≡ underlying_type t) × WellFormed defs a
unfolding get_ancestors underlying_type
any_ancestor defs p (alias n t) w h = elim (Bool-cases (p (alias n t))) [
  | inl e ↦ (alias n t, e, refl, w)
  | inr e ↦ any_ancestor defs p t w.1 (ground arith)
]
any_ancestor defs p (abs n) w h = (abs n, ground arith, refl, w)
any_ancestor defs p t w h = (t, ground arith, refl, w)

-- A common ancestor has the underlying type of both.
lca-underlying_type :
    (defs : ℕ → FppType) (t1 t2 : FppType) {c : FppType}
    → WellFormed defs t1
    → WellFormed defs t2
    → lca t1 t2 ≡ some c
    → (underlying_type c ≡ underlying_type t1) × (underlying_type c ≡ underlying_type t2)
unfolding lca
lca-underlying_type defs t1 t2 {c} w1 w2 h =
    let (shared, up2, wc) =
      find_ancestor defs (λ b. any (λ a. identical a b) (get_ancestors t1)) t2 w2 h in
    let (a, same_type, up1, wa) = any_ancestor defs (λ a. identical a c) t1 w1 shared in
    (ap underlying_type (sym (identical-eq defs a c wa wc same_type)) ∙ up1, up2)

module _ (defs : ℕ → FppType) (t1 t2 : FppType) (w1 : WellFormed defs t1)
    (w2 : WellFormed defs t2) where
  pub common_type_identical-bound :
      {c : FppType} → common_type_identical t1 t2 ≡ some c → IsUpperBound t1 t2 c
  unfolding common_type_identical
  common_type_identical-bound {c} h =
      let first : t1 ≡ c = ground arith in
      let second : t1 ≡ t2 = identical-eq defs t1 t2 w1 w2 (ground arith) in
      subst (IsUpperBound t1 t2) first
        (record { left = Converts_refl defs t1 w1; right = rw second (Converts_refl defs t2 w2) })

  pub common_type_alias-bound :
      BoundsBelow defs (weight t1 + weight t2)
      → {c : FppType} → common_type_alias common_type t1 t2 ≡ some c
      → IsUpperBound t1 t2 c
  unfolding common_type_alias
  common_type_alias-bound ih {c} h =
      elim (Bool-cases (not (is_canonical t1) || not (is_canonical t2))) [
        | inr e ↦ absurd (ground arith)
        | inl e ↦ elim (Option-cases (lca t1 t2)) [
          | inr (d, found) ↦
              let result : d ≡ c = ground arith in
              let (up1, up2) = lca-underlying_type defs t1 t2 w1 w2 found in
              subst (IsUpperBound t1 t2) result (record {
                left = rw up1 (Converts_refl defs t1 w1);
                right = rw up2 (Converts_refl defs t2 w2);
              })
          | inl e' ↦
              let below =
                ih (underlying_type t1) (underlying_type t2) c (weight-alias t1 t2 e)
                  (WellFormed-underlying_type defs t1 w1) (WellFormed-underlying_type defs t2 w2)
                  (ground arith) in
              record {
                left = rw underlying_type-underlying_type at below.left;
                right = rw underlying_type-underlying_type at below.right;
              }
        ]
      ]
