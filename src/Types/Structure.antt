-- ===== src/Types/Structure.antt =====
-- fpp_analysis/src/semantics/types.rs: the parts of a type, its predicates and type identity.
use text.Mathlib.Text.{◌==◌ as str_eq}
use fpp_tools.Prelude.{
  ℕ, ◌==◌, String, Bool, true, false, ◌&&◌, ◌||◌, List, [], ◌∷◌, Option, none, some, ℤ, leb_ℤ, pos,
  if◌then◌else◌, find_map,
}
use fpp_tools.Semantics.Data.{
  IntegerKind, u8, i8, u16, i16, u32, i32, u64, i64, FloatKind, f32, f64, FppType, primitive_int,
  float, string, boolean, integer, abs, alias, array, anon_array, enum, struct, anon_struct,
  array_type, enum_type, struct_type, TypeMembers, no_members, member,
}

abbrev pub StructMember : Type 0
StructMember = String × FppType

-- The members as the vector that the source keeps.
abbrev pub to_list : TypeMembers → List StructMember
to_list no_members = []
to_list (member n t ms) = (n, t) ∷ to_list ms

abbrev pub from_list : List StructMember → TypeMembers
from_list [] = no_members
from_list ((n, t) ∷ ms) = member n t (from_list ms)

abbrev kind_index : IntegerKind → ℕ
kind_index u8 = 0
kind_index i8 = 1
kind_index u16 = 2
kind_index i16 = 3
kind_index u32 = 4
kind_index i32 = 5
kind_index u64 = 6
kind_index i64 = 7

-- `k1 == k2`, the derived equality.
abbrev pub integer_kind_eq : IntegerKind → IntegerKind → Bool
integer_kind_eq k1 k2 = kind_index k1 == kind_index k2

abbrev pub float_kind_eq : FloatKind → FloatKind → Bool
float_kind_eq f32 f32 = true
float_kind_eq f64 f64 = true
float_kind_eq _ _ = false

unfoldable pub underlying_type : FppType → FppType
underlying_type (alias n t) = underlying_type t
underlying_type t = t

unfoldable pub is_canonical : FppType → Bool
is_canonical (alias n t) = false
is_canonical t = true

unfoldable pub is_float : FppType → Bool
is_float (float k) = true
is_float t = false

unfoldable pub is_int : FppType → Bool
is_int (primitive_int k) = true
is_int integer = true
is_int t = false

unfoldable pub is_numeric : FppType → Bool
unfolding is_int is_float
is_numeric t = is_int t || is_float t

unfoldable pub is_primitive : FppType → Bool
is_primitive (primitive_int k) = true
is_primitive (float k) = true
is_primitive boolean = true
is_primitive t = false

unfoldable pub is_convertible_to_numeric : FppType → Bool
unfolding is_numeric
is_convertible_to_numeric (enum e) = true
is_convertible_to_numeric t = is_numeric t

unfoldable pub is_promotable_to_array : FppType → Bool
unfolding is_numeric
is_promotable_to_array (string s) = true
is_promotable_to_array boolean = true
is_promotable_to_array (enum e) = true
is_promotable_to_array t = is_numeric t

unfoldable pub is_promotable_to_struct : FppType → Bool
unfolding is_promotable_to_array
is_promotable_to_struct t = is_promotable_to_array t

unfoldable mutual
  unfolding is_numeric

  pub has_numeric_members : FppType → Bool
  has_numeric_members (alias n t) = has_numeric_members t
  has_numeric_members (array (array_type n s t d)) = has_numeric_members t
  has_numeric_members (anon_array s t) = has_numeric_members t
  has_numeric_members (struct (struct_type n ms d z)) = all_numeric ms
  has_numeric_members (anon_struct ms) = all_numeric ms
  has_numeric_members t = is_numeric t

  pub all_numeric : TypeMembers → Bool
  all_numeric no_members = true
  all_numeric (member n t ms) = has_numeric_members t && all_numeric ms

unfoldable mutual
  pub is_displayable : FppType → Bool
  is_displayable (primitive_int k) = true
  is_displayable (float k) = true
  is_displayable (string s) = true
  is_displayable boolean = true
  is_displayable integer = false
  is_displayable (abs n) = false
  is_displayable (alias n t) = is_displayable t
  is_displayable (array (array_type n s t d)) = is_displayable t
  is_displayable (anon_array s t) = false
  is_displayable (enum e) = true
  is_displayable (struct (struct_type n ms d z)) = all_displayable ms
  is_displayable (anon_struct ms) = false

  pub all_displayable : TypeMembers → Bool
  all_displayable no_members = true
  all_displayable (member n t ms) = is_displayable t && all_displayable ms

-- The definition node of a named type, its identifier alone.
unfoldable pub def_node_id : FppType → Option ℕ
def_node_id (abs n) = some n.node_id
def_node_id (alias n t) = some n.node_id
def_node_id (array (array_type n s t d)) = some n.node_id
def_node_id (enum (enum_type n k d)) = some n.node_id
def_node_id (struct (struct_type n ms d z)) = some n.node_id
def_node_id t = none

unfoldable pub array_size : FppType → Option ℕ
array_size (anon_array s t) = s
array_size (array (array_type n s t d)) = s
array_size t = none

-- `AnonArrayType`: the size and the element type.
pub record AnonArrayType : Type 0 where
  pub size : Option ℕ
  pub elt_type : FppType

unfoldable pub as_anon_array : FppType → Option AnonArrayType
as_anon_array (array (array_type n s t d)) = some (record { size = s; elt_type = t })
as_anon_array (anon_array s t) = some (record { size = s; elt_type = t })
as_anon_array t = none

-- `AnonStructType`: the members.
unfoldable pub as_anon_struct : FppType → Option (List StructMember)
as_anon_struct (struct (struct_type n ms d z)) = some (to_list ms)
as_anon_struct (anon_struct ms) = some (to_list ms)
as_anon_struct t = none

unfoldable pub get_member : String → List StructMember → Option FppType
get_member name = find_map λ (k, v). if str_eq k name then some v else none

unfoldable pub has_member : String → List StructMember → Bool
unfolding get_member
has_member name ms = elim (get_member name ms) [ some t ↦ true | none ↦ false ]

unfoldable pub sizes_match : Option ℕ → Option ℕ → Bool
sizes_match (some n1) (some n2) = n1 == n2
sizes_match s1 s2 = true

unfoldable pub common_size : Option ℕ → Option ℕ → Option ℕ
common_size (some n1) (some n2) = if n1 == n2 then some n1 else none
common_size s1 s2 = none

abbrev pub same_node : Option ℕ → Option ℕ → Bool
same_node (some n1) (some n2) = n1 == n2
same_node n1 n2 = false

-- Type identity: the same primitive, or the same definition.
unfoldable pub identical : FppType → FppType → Bool
unfolding def_node_id
identical (primitive_int k1) (primitive_int k2) = integer_kind_eq k1 k2
identical (float k1) (float k2) = float_kind_eq k1 k2
identical integer integer = true
identical boolean boolean = true
identical t1 t2 = same_node (def_node_id t1) (def_node_id t2)

unfoldable pub is_valid_string_size : ℤ → Bool
is_valid_string_size size = leb_ℤ (pos 0) size && leb_ℤ size (pos 2147483647)
