-- ===== src/Types/Size.antt =====
-- fpp_analysis/src/semantics/types.rs: serialized sizes, in the checked arithmetic of an `i128`.
pub mod Exact
pub mod Total
use text.Mathlib.Text.{◌==◌ as str_eq}
use fpp_tools.Prelude.{
  ℕ, zero, suc, ◌-◌, ◌^◌, String, Bool, true, false, ◌&&◌, List, [], ◌∷◌, Option, none, some, ℤ,
  pos, negsuc, ◌+ℤ◌, ◌*ℤ◌, leb_ℤ, if◌then◌else◌, Result, ok, err, and_then, ok_or, find_map,
}
use fpp_tools.Semantics.Data.{
  IntegerKind, u8, i8, u16, i16, u32, i32, u64, i64, FloatKind, f32, f64, FppType, primitive_int,
  float, string, boolean, integer, abs, alias, array, anon_array, enum, struct, anon_struct,
  array_type, enum_type, struct_type, TypeMembers, no_members, member,
}
use fpp_tools.Prelude.I128.{checked_add, checked_mul}
use fpp_tools.Types.Structure.{underlying_type}

-- `endless` has no counterpart in the source, whose recursion does not end there: the size of the
-- type of string lengths asks for the size of a string.
pub data SerializedSizeError : Type 0 where
  unavailable too_large endless : SerializedSizeError

abbrev pub SizeResult : Type 0
SizeResult = Result ℤ SerializedSizeError

-- What the sizes of strings read of the analysis: the framework definitions, the types of
-- definition nodes and the values of constants.
pub record Analysis : Type 0 where
  pub framework_type : String → Option ℕ
  pub framework_constant : String → Option ℕ
  pub type_map : ℕ → Option FppType
  pub int_value : ℕ → Option ℤ

unfoldable pub primitive_int_size : IntegerKind → ℤ
primitive_int_size u8 = pos 1
primitive_int_size i8 = pos 1
primitive_int_size u16 = pos 2
primitive_int_size i16 = pos 2
primitive_int_size u32 = pos 4
primitive_int_size i32 = pos 4
primitive_int_size u64 = pos 8
primitive_int_size i64 = pos 8

unfoldable pub float_size : FloatKind → ℤ
float_size f32 = pos 4
float_size f64 = pos 8

-- `Type::primitive_serialized_size`, which has tables of its own.
unfoldable pub primitive_int_bytes : IntegerKind → ℤ
primitive_int_bytes i8 = pos 1
primitive_int_bytes u8 = pos 1
primitive_int_bytes i16 = pos 2
primitive_int_bytes u16 = pos 2
primitive_int_bytes i32 = pos 4
primitive_int_bytes u32 = pos 4
primitive_int_bytes i64 = pos 8
primitive_int_bytes u64 = pos 8

unfoldable pub primitive_serialized_size : FppType → Option ℤ
unfolding primitive_int_bytes
primitive_serialized_size (alias n t) = primitive_serialized_size t
primitive_serialized_size boolean = some (pos 1)
primitive_serialized_size (float f32) = some (pos 4)
primitive_serialized_size (float f64) = some (pos 8)
primitive_serialized_size (primitive_int k) = some (primitive_int_bytes k)
primitive_serialized_size (enum (enum_type n k d)) = some (primitive_int_bytes k)
primitive_serialized_size t = none

-- `n * size`, or the error.
unfoldable pub scale : ℕ → ℤ → SizeResult
unfolding checked_mul
scale n size = ok_or too_large (checked_mul (pos n) size)

unfoldable pub lookup_size : String → List (String × ℕ) → Option ℕ
lookup_size name = find_map λ (k, n). if str_eq k name then some n else none

-- `t.sizes.get(m).copied().unwrap_or(1)`.
unfoldable pub member_size : String → List (String × ℕ) → ℕ
unfolding lookup_size
member_size m sizes = elim (lookup_size m sizes) [ some n ↦ n | none ↦ 1 ]

-- The size of a string: that of its length, and its data.
unfoldable pub string_size : SizeResult → SizeResult → Option ℤ → SizeResult
unfolding checked_add
string_size length_size default_size size = and_then length_size λ l.
    and_then (elim size [ some v ↦ ok v | none ↦ default_size ])
      λ d. ok_or too_large (checked_add l d)

-- The visitor, where `length_size` and `default_size` are what it finds for strings.
module _ (length_size default_size : SizeResult) where
  unfoldable mutual
    unfolding scale string_size checked_add

    pub visit : FppType → SizeResult
    visit (alias n t) = visit t
    visit (array (array_type n none t d)) = err unavailable
    visit (array (array_type n (some s) t d)) = and_then (visit t) λ size. scale s size
    visit boolean = ok (pos 1)
    visit (enum (enum_type n k d)) = ok (primitive_int_size k)
    visit (float k) = ok (float_size k)
    visit (primitive_int k) = ok (primitive_int_size k)
    visit (string size) = string_size length_size default_size size
    visit (struct (struct_type n ms d sizes)) = visit_members sizes (pos 0) ms
    visit t = err unavailable

    pub visit_members : List (String × ℕ) → ℤ → TypeMembers → SizeResult
    visit_members sizes size no_members = ok size
    visit_members sizes size (member m t ms) = and_then (visit t) λ member_bytes.
        and_then (scale (member_size m sizes) member_bytes) λ scaled.
          and_then (ok_or too_large (checked_add size scaled)) λ size'. visit_members sizes size' ms

unfoldable pub length_type : Analysis → Result FppType SerializedSizeError
length_type a =
    and_then (ok_or unavailable (a.framework_type "FwSizeStoreType"))
      λ symbol. ok_or unavailable (a.type_map symbol)

unfoldable pub default_string_size : Analysis → SizeResult
default_string_size a =
    and_then (ok_or unavailable (a.framework_constant "FW_FIXED_LENGTH_STRING_SIZE"))
      λ symbol. ok_or unavailable (a.int_value symbol)

-- `depth` bounds how often the type of string lengths may itself ask for the size of a string.
unfoldable pub serialized_size : ℕ → Analysis → FppType → SizeResult
unfolding visit length_type default_string_size
serialized_size zero a t = visit (err endless) (default_string_size a) t
serialized_size (suc depth) a t =
    visit (and_then (length_type a) λ l. serialized_size depth a l) (default_string_size a) t
