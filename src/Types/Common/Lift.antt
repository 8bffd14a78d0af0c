-- ===== src/Types/Common/Lift.antt =====
-- fpp_analysis/src/semantics/types.rs: what a type converts to, the type converts to that wraps it: an
-- enum as its representation, a named array or struct as its structure.
use fpp_tools.Prelude.{ℕ, ◌≡◌, refl, true, String, List, Option, arith}
use fpp_tools.Semantics.Data.{
  IntegerKind, FppType, primitive_int, array, anon_array, enum, struct, anon_struct, array_type,
  EnumType, struct_type, TypeMembers, OptionArrayValue, OptionStructValue, DefNode,
}
use fpp_tools.Types.Structure.{
  StructMember, identical, is_convertible_to_numeric, is_numeric, is_promotable_to_array,
  is_promotable_to_struct, as_anon_array, as_anon_struct,
}
use fpp_tools.Types.Convert.Relation.{
  Converts, ConvertsToAll, same, numeric, strings, arrays, structs, promoted_to_array,
  promoted_to_struct, all_done, each,
}

-- What is identical to a primitive integer type is numeric.
identical-primitive_int :
    (k : IntegerKind) (x : FppType) → identical (primitive_int k) x ≡ true → is_numeric x ≡ true
unfolding identical is_numeric
identical-primitive_int k (primitive_int k2) h = refl
identical-primitive_int k _ h = cc

mutual
  unfolding as_anon_array as_anon_struct is_convertible_to_numeric is_promotable_to_array
      is_promotable_to_struct

  pub Converts-enum :
      (e : EnumType) (k : IntegerKind) {t x : FppType}
      → t ≡ primitive_int k
      → Converts t x
      → Converts (enum e) x
  Converts-enum e k {t} {x} p (same h) = numeric refl (identical-primitive_int k x (rw (← p) h))
  Converts-enum e k p (numeric h1 h2) = numeric refl h2
  Converts-enum e k p strings = cc
  Converts-enum e k {t} p (arrays e1 e2 s c) = absurd (ground (arith))
  Converts-enum e k p (promoted_to_array h e2 c) = promoted_to_array refl e2 (Converts-enum e k p c)
  Converts-enum e k p (structs e1 e2 c) = absurd (ground arith)
  Converts-enum e k p (promoted_to_struct h e2 c) =
      promoted_to_struct refl e2 (ConvertsToAll-enum e k p c)

  ConvertsToAll-enum :
      (e : EnumType) (k : IntegerKind) {t : FppType} {ms : List StructMember}
      → t ≡ primitive_int k
      → ConvertsToAll t ms
      → ConvertsToAll (enum e) ms
  ConvertsToAll-enum e k p all_done = all_done
  ConvertsToAll-enum e k p (each c cs) = each (Converts-enum e k p c) (ConvertsToAll-enum e k p cs)

identical-anon_array : (s : Option ℕ) (e x : FppType) → identical (anon_array s e) x ≡ true → ⊥
unfolding identical
identical-anon_array s e (anon_array s' e') h = cc
identical-anon_array s e _ h = cc

identical-anon_struct : (ms : TypeMembers) (x : FppType) → identical (anon_struct ms) x ≡ true → ⊥
unfolding identical
identical-anon_struct ms (anon_struct ms') h = cc
identical-anon_struct ms _ h = cc

pub Converts-array :
    (n : DefNode) (s : Option ℕ) (e : FppType) (d : OptionArrayValue) {t x : FppType}
    → t ≡ anon_array s e
    → Converts t x
    → Converts (array (array_type n s e d)) x
unfolding as_anon_array as_anon_struct is_convertible_to_numeric is_promotable_to_array
    is_promotable_to_struct
Converts-array n s e d {t} {x} p (same h) = absurd (identical-anon_array s e x (rw (← p) h))
Converts-array n s e d p (numeric h1 h2) = absurd (ground arith)
Converts-array n s e d p strings = cc
Converts-array n s e d p (arrays e1 e2 m c) = arrays (ground arith) e2 m c
Converts-array n s e d p (promoted_to_array h e2 c) = absurd (ground arith)
Converts-array n s e d p (structs e1 e2 c) = absurd (ground arith)
Converts-array n s e d p (promoted_to_struct h e2 c) = absurd (ground arith)

pub Converts-struct :
    (n : DefNode) (ms : TypeMembers) (d : OptionStructValue) (z : List (String × ℕ)) {t x : FppType}
    → t ≡ anon_struct ms
    → Converts t x
    → Converts (struct (struct_type n ms d z)) x
unfolding as_anon_array as_anon_struct is_convertible_to_numeric is_promotable_to_array
    is_promotable_to_struct
Converts-struct n ms d z {t} {x} p (same h) = absurd (identical-anon_struct ms x (rw (← p) h))
Converts-struct n ms d z p (numeric h1 h2) = absurd (ground arith)
Converts-struct n ms d z p strings = cc
Converts-struct n ms d z p (arrays e1 e2 m c) = absurd (ground arith)
Converts-struct n ms d z p (promoted_to_array h e2 c) = absurd (ground arith)
Converts-struct n ms d z p (structs e1 e2 c) = structs (ground arith) e2 c
Converts-struct n ms d z p (promoted_to_struct h e2 c) = absurd (ground arith)
