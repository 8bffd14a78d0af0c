-- ===== src/Types/WellFormed.antt =====
-- fpp_analysis/src/semantics/types.rs: the types that the analysis builds. Each definition node has one
-- type, and the members of a struct have distinct names.
use fpp_tools.Prelude.{
  ℕ, ◌≡◌, refl, sym, ◌∙◌, ap, true, List, [], ◌∷◌, Option, none, some, ◌⊎◌, inl, inr, arith,
  Option-cases, All,
}
use fpp_tools.Semantics.Data.{
  IntegerKind, FloatKind, FppType, primitive_int, float, boolean, integer, abs, alias, array,
  anon_array, enum, struct, anon_struct, array_type, enum_type, struct_type, TypeMembers,
  no_members, member,
}
use fpp_tools.Types.Structure.{
  StructMember, to_list, integer_kind_eq, float_kind_eq, underlying_type, is_canonical, identical,
  def_node_id, same_node, get_member, sizes_match, common_size,
}

-- `defs` gives the type of each definition node.
abbrev mutual
  pub WellFormed : (ℕ → FppType) → FppType → Type 0
  WellFormed defs (abs n) = defs n.node_id ≡ abs n
  WellFormed defs (alias n t) = (defs n.node_id ≡ alias n t) × WellFormed defs t
  WellFormed defs (array (array_type n s t d)) =
      (defs n.node_id ≡ array (array_type n s t d)) × WellFormed defs t
  WellFormed defs (anon_array s t) = WellFormed defs t
  WellFormed defs (enum (enum_type n k d)) = defs n.node_id ≡ enum (enum_type n k d)
  WellFormed defs (struct (struct_type n ms d z)) =
      (defs n.node_id ≡ struct (struct_type n ms d z)) × WellFormedMembers defs ms
  WellFormed defs (anon_struct ms) = WellFormedMembers defs ms
  WellFormed defs t = Unit {0}

  pub WellFormedMembers : (ℕ → FppType) → TypeMembers → Type 0
  WellFormedMembers defs no_members = Unit {0}
  WellFormedMembers defs (member n t ms) =
      (get_member n (to_list ms) ≡ none) × WellFormed defs t × WellFormedMembers defs ms

-- Of `to_list ms`, as a list: the names are distinct.
abbrev pub Distinct : List StructMember → Type 0
Distinct [] = Unit {0}
Distinct ((n, t) ∷ ms) = (get_member n ms ≡ none) × Distinct ms

pub integer_kind_eq→eq : (k1 k2 : IntegerKind) → integer_kind_eq k1 k2 ≡ true → k1 ≡ k2
integer_kind_eq→eq k1 k2 h = ground arith

pub float_kind_eq→eq : (k1 k2 : FloatKind) → float_kind_eq k1 k2 ≡ true → k1 ≡ k2
float_kind_eq→eq k1 k2 h = ground arith

pub underlying_type-underlying_type :
    (t : FppType) → underlying_type (underlying_type t) ≡ underlying_type t
unfolding underlying_type
underlying_type-underlying_type (alias n t) = underlying_type-underlying_type t
underlying_type-underlying_type _ = refl

-- The assertions of `may_be_converted` hold at each of its calls.
pub is_canonical-underlying_type : (t : FppType) → is_canonical (underlying_type t) ≡ true
unfolding underlying_type is_canonical
is_canonical-underlying_type (alias n t) = is_canonical-underlying_type t
is_canonical-underlying_type _ = refl

pub underlying_type-canonical : (t : FppType) → is_canonical t ≡ true → underlying_type t ≡ t
unfolding underlying_type is_canonical
underlying_type-canonical (alias n t) h = cc
underlying_type-canonical _ h = refl

pub sizes_match_refl : (s : Option ℕ) → sizes_match s s ≡ true
unfolding sizes_match
sizes_match_refl none = refl
sizes_match_refl (some n) = ground arith

pub sizes_match-common_size :
    (s1 s2 : Option ℕ)
    → sizes_match s1 s2 ≡ true
    → (sizes_match s1 (common_size s1 s2) ≡ true) × (sizes_match s2 (common_size s1 s2) ≡ true)
unfolding sizes_match common_size
sizes_match-common_size none none h = (refl, refl)
sizes_match-common_size none (some m) h = (refl, refl)
sizes_match-common_size (some n) none h = (refl, refl)
sizes_match-common_size (some n) (some m) h = ground arith

identical-cases :
    (t1 t2 : FppType)
    → identical t1 t2 ≡ true
    → (t1 ≡ t2) ⊎ (same_node (def_node_id t1) (def_node_id t2) ≡ true)
unfolding identical
identical-cases (primitive_int k1) (primitive_int k2) h =
    inl (ap primitive_int (integer_kind_eq→eq k1 k2 h))
identical-cases (float k1) (float k2) h = inl (ap float (float_kind_eq→eq k1 k2 h))
identical-cases integer integer h = inl refl
identical-cases boolean boolean h = inl refl
identical-cases _ _ h = inr h

module _ (defs : ℕ → FppType) where
  def_node_id-WellFormed :
      (t : FppType) {k : ℕ} → WellFormed defs t → def_node_id t ≡ some k → defs k ≡ t
  unfolding def_node_id
  def_node_id-WellFormed (abs n) w h = ground arith
  def_node_id-WellFormed (alias n t) w h = ground arith
  def_node_id-WellFormed (array (array_type n s t d)) w h = ground arith
  def_node_id-WellFormed (enum (enum_type n k d)) w h = ground arith
  def_node_id-WellFormed (struct (struct_type n ms d z)) w h = ground arith
  def_node_id-WellFormed _ w h = cc

  -- Identical types are equal.
  pub identical-eq :
      (t1 t2 : FppType) → WellFormed defs t1 → WellFormed defs t2 → identical t1 t2 ≡ true → t1 ≡ t2
  identical-eq t1 t2 w1 w2 h = elim (identical-cases t1 t2 h) [
    | inl e ↦ e
    | inr e ↦ elim (Option-cases (def_node_id t1)) [
      | inl e1 ↦ absurd (ground arith)
      | inr (k1, e1) ↦ elim (Option-cases (def_node_id t2)) [
        | inl e2 ↦ absurd (ground arith)
        | inr (k2, e2) ↦
            sym (def_node_id-WellFormed t1 w1 e1)
            ∙ ap defs (ground arith)
            ∙ def_node_id-WellFormed t2 w2 e2
      ]
    ]
  ]

  pub WellFormed-underlying_type :
      (t : FppType) → WellFormed defs t → WellFormed defs (underlying_type t)
  unfolding underlying_type
  WellFormed-underlying_type (alias n t) w = WellFormed-underlying_type t w.1
  WellFormed-underlying_type (abs n) w = w
  WellFormed-underlying_type (array (array_type n s t d)) w = w
  WellFormed-underlying_type (anon_array s t) w = w
  WellFormed-underlying_type (enum (enum_type n k d)) w = w
  WellFormed-underlying_type (struct (struct_type n ms d z)) w = w
  WellFormed-underlying_type (anon_struct ms) w = w
  WellFormed-underlying_type _ w = tt

  pub WellFormedMembers-All :
      (ms : TypeMembers) → WellFormedMembers defs ms → All (λ m. WellFormed defs m.1) (to_list ms)
  WellFormedMembers-All no_members w = tt
  WellFormedMembers-All (member n t ms) w = (w.1, WellFormedMembers-All ms w.2)

  pub WellFormedMembers-Distinct :
      (ms : TypeMembers) → WellFormedMembers defs ms → Distinct (to_list ms)
  WellFormedMembers-Distinct no_members w = tt
  WellFormedMembers-Distinct (member n t ms) w = (w.0, WellFormedMembers-Distinct ms w.2)
