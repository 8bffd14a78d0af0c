-- ===== src/Types/Convert/Reflexive.antt =====
-- fpp_analysis/src/semantics/types.rs: every well-formed type converts to itself.
use fpp_tools.Prelude.{ℕ, ◌≡◌, refl, String, List, true, some, arith}
use fpp_tools.Semantics.Data.{
  FppType, primitive_int, float, string, boolean, integer, abs, alias, array, anon_array, enum,
  struct, anon_struct, array_type, enum_type, struct_type, TypeMembers, no_members, member,
}
use fpp_tools.Types.Structure.{
  StructMember, to_list, underlying_type, identical, as_anon_array, as_anon_struct, get_member,
}
use fpp_tools.Types.WellFormed.{WellFormed, WellFormedMembers, sizes_match_refl}
use fpp_tools.Types.Members.{get_member_head, get_member_tail}
use fpp_tools.Types.Convert.{is_convertible_to}
use fpp_tools.Types.Convert.Decides.{is_convertible_to_iff}
use fpp_tools.Types.Convert.Relation.{
  Converts, MembersConvert, same, strings, arrays, structs, none_left, found,
}

mutual
  unfolding underlying_type identical as_anon_array as_anon_struct

  pub Converts_refl :
      (defs : ℕ → FppType) (t : FppType)
      → WellFormed defs t
      → Converts (underlying_type t) (underlying_type t)
  Converts_refl defs (alias n t) w = Converts_refl defs t w.1
  Converts_refl defs (primitive_int k) w = same (ground arith)
  Converts_refl defs (float k) w = same (ground arith)
  Converts_refl defs (string s) w = strings
  Converts_refl defs boolean w = same refl
  Converts_refl defs integer w = same refl
  Converts_refl defs (abs n) w = same (ground arith)
  Converts_refl defs (array (array_type n s t d)) w = same (ground arith)
  Converts_refl defs (anon_array s t) w =
      arrays refl refl (sizes_match_refl s) (Converts_refl defs t w)
  Converts_refl defs (enum (enum_type n k d)) w = same (ground arith)
  Converts_refl defs (struct (struct_type n ms d z)) w = same (ground arith)
  Converts_refl defs (anon_struct ms) w =
      structs refl refl (MembersConvert-self defs ms (to_list ms) w (λ k t e. e))

  -- The members of a struct, inside a list where each is found by its name.
  MembersConvert-self :
      (defs : ℕ → FppType) (ms : TypeMembers) (whole : List StructMember)
      → WellFormedMembers defs ms
      → ((k : String) (t : FppType)
          → get_member k (to_list ms) ≡ some t
          → get_member k whole ≡ some t)
      → MembersConvert whole (to_list ms)
  MembersConvert-self defs no_members whole w h = none_left
  MembersConvert-self defs (member n t ms) whole w h =
      found (h n t (get_member_head n t (to_list ms))) (Converts_refl defs t w.1) (
        MembersConvert-self defs ms whole w.2
          λ k u e. h k u (get_member_tail n k t (to_list ms) w.0 e))

-- Every type converts to itself, where it is well formed: each definition node has one type, and the
-- members of each struct have distinct names.
pub is_convertible_to_refl :
    (defs : ℕ → FppType) (t : FppType) → WellFormed defs t → is_convertible_to t t ≡ true
is_convertible_to_refl defs t w = (is_convertible_to_iff t t).1 (Converts_refl defs t w)
