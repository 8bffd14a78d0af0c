-- ===== src/Types/Size/Total.antt =====
-- fpp_analysis/src/semantics/types.rs: which types have a serialized size, and that its recursion ends.
use fpp_tools.Prelude.{
  and_then-ok, ℕ, zero, suc, ◌≡◌, refl, ◌≢◌, String, true, List, Option, none, some, ℤ, pos, Result,
  ok, err, and_then, ok_or, arith,
}
use fpp_tools.Prelude.I128.{checked_add}
use fpp_tools.Semantics.Data.{
  IntegerKind, f32, f64, FppType, primitive_int, float, string, boolean, integer, abs, alias, array, anon_array, enum,
  struct, anon_struct, array_type, enum_type, struct_type, TypeMembers, no_members, member,
}
use fpp_tools.Types.Structure.{is_displayable, all_displayable}
use fpp_tools.Types.Size.{
  SizeResult, SerializedSizeError, Analysis, unavailable, too_large, endless,
  primitive_serialized_size, primitive_int_size, primitive_int_bytes, float_size, scale, member_size, string_size, visit, visit_members, length_type,
  default_string_size, serialized_size,
}
use fpp_tools.Types.Size.Exact.{add_member, add_scaled}

primitive_int_size-bytes : (k : IntegerKind) → primitive_int_size k ≡ primitive_int_bytes k
unfolding primitive_int_size primitive_int_bytes
primitive_int_size-bytes k = ground arith

-- The visitor agrees with `primitive_serialized_size` where that gives a size.
visit-primitive :
    (l d : SizeResult) (t : FppType) {s : ℤ}
    → primitive_serialized_size t ≡ some s
    → visit l d t ≡ ok s
unfolding visit primitive_serialized_size float_size
visit-primitive l d (alias n t) h = visit-primitive l d t h
visit-primitive l d boolean h = ground arith
visit-primitive l d (float f32) h = ground arith
visit-primitive l d (float f64) h = ground arith
visit-primitive l d (primitive_int k) h = let same = primitive_int_size-bytes k in ground arith
visit-primitive l d (enum (enum_type n k v)) h =
    let same = primitive_int_size-bytes k in ground arith
visit-primitive l d _ h = cc

-- A type with a primitive size has it as its serialized size, whatever the analysis holds.
pub serialized_size-primitive :
    (depth : ℕ) (a : Analysis) (t : FppType) {s : ℤ}
    → primitive_serialized_size t ≡ some s
    → serialized_size depth a t ≡ ok s
unfolding serialized_size
serialized_size-primitive zero a t h = visit-primitive (err endless) (default_string_size a) t h
serialized_size-primitive (suc depth) a t h =
    visit-primitive (and_then (length_type a) (serialized_size depth a)) (default_string_size a) t h

-- The length type has a primitive size, as a framework that declares it as an integer gives it.
pub record HasLengthType (a : Analysis) : Type 0 where
  pub ty : FppType
  pub bytes : ℤ
  pub declared : length_type a ≡ ok ty
  pub primitive : primitive_serialized_size ty ≡ some bytes

abbrev NotEndless {ℓ} : {A : Type ℓ} → Result A SerializedSizeError → Type ℓ
NotEndless r = r ≡ err endless → ⊥

and_then-NotEndless {ℓ} :
    {A B : Type ℓ} (r : Result A SerializedSizeError) (f : A → Result B SerializedSizeError)
    → NotEndless r
    → ((x : A) → NotEndless (f x))
    → NotEndless (and_then r f)
and_then-NotEndless (ok x) f hr hf = hf x
and_then-NotEndless (err e) f hr hf = λ h. hr (cc)

ok_or_too_large-NotEndless : (o : Option ℤ) → NotEndless (ok_or too_large o)
ok_or_too_large-NotEndless none = λ h. cc
ok_or_too_large-NotEndless (some x) = λ h. cc

ok_or_unavailable-NotEndless {ℓ} : {A : Type ℓ} (o : Option A) → NotEndless (ok_or unavailable o)
ok_or_unavailable-NotEndless none = λ h. cc
ok_or_unavailable-NotEndless (some x) = λ h. cc

scale-NotEndless : (n : ℕ) (size : ℤ) → NotEndless (scale n size)
unfolding scale
scale-NotEndless n size = ok_or_too_large-NotEndless _

string_size-NotEndless :
    (l d : SizeResult) (size : Option ℤ)
    → NotEndless l
    → NotEndless d
    → NotEndless (string_size l d size)
unfolding string_size
string_size-NotEndless l d none hl hd =
    and_then-NotEndless l _ hl λ x. and_then-NotEndless d _ hd λ y. ok_or_too_large-NotEndless _
string_size-NotEndless l d (some v) hl hd =
    and_then-NotEndless l _ hl λ x. ok_or_too_large-NotEndless _

mutual
  unfolding visit

  visit-NotEndless :
      (l d : SizeResult) (t : FppType) → NotEndless l → NotEndless d → NotEndless (visit l d t)
  visit-NotEndless l d (alias n t) hl hd = visit-NotEndless l d t hl hd
  visit-NotEndless l d (array (array_type n none t v)) hl hd = λ h. cc
  visit-NotEndless l d (array (array_type n (some k) t v)) hl hd =
      and_then-NotEndless (visit l d t) _ (visit-NotEndless l d t hl hd) λ x. scale-NotEndless k x
  visit-NotEndless l d (enum (enum_type n k v)) hl hd = λ h. cc
  visit-NotEndless l d (string size) hl hd = string_size-NotEndless l d size hl hd
  visit-NotEndless l d (struct (struct_type n ms v sizes)) hl hd =
      visit_members-NotEndless l d sizes (pos 0) ms hl hd
  visit-NotEndless l d _ hl hd = λ h. cc

  visit_members-NotEndless :
      (l d : SizeResult) (sizes : List (String × ℕ)) (total : ℤ) (ms : TypeMembers)
      → NotEndless l
      → NotEndless d
      → NotEndless (visit_members l d sizes total ms)
  visit_members-NotEndless l d sizes total no_members hl hd = λ h. cc
  visit_members-NotEndless l d sizes total (member m t ms) hl hd =
      and_then-NotEndless (visit l d t) (add_member l d sizes total m ms)
        (visit-NotEndless l d t hl hd)
        λ bytes.
          and_then-NotEndless (scale (member_size m sizes) bytes) (add_scaled l d sizes total ms)
            (scale-NotEndless (member_size m sizes) bytes)
            λ scaled.
              and_then-NotEndless (ok_or too_large (checked_add total scaled))
                (λ t'. visit_members l d sizes t' ms)
                (ok_or_too_large-NotEndless (checked_add total scaled))
                λ t'. visit_members-NotEndless l d sizes t' ms hl hd

default_string_size-NotEndless : (a : Analysis) → NotEndless (default_string_size a)
unfolding default_string_size
default_string_size-NotEndless a =
    and_then-NotEndless (ok_or unavailable (a.framework_constant "FW_FIXED_LENGTH_STRING_SIZE")) _
      (ok_or_unavailable-NotEndless (a.framework_constant "FW_FIXED_LENGTH_STRING_SIZE"))
      λ symbol. ok_or_unavailable-NotEndless (a.int_value symbol)

-- Where the type of string lengths has a primitive size, the recursion of `serialized_size` ends on
-- every type, and a deeper bound on it changes no result.
pub serialized_size_ends :
    (depth : ℕ) (a : Analysis) (t : FppType)
    → HasLengthType a
    → (serialized_size (suc depth) a t ≢ err endless)
      × (serialized_size (suc depth) a t ≡ serialized_size 1 a t)
unfolding serialized_size
serialized_size_ends depth a t p =
    let length_size = serialized_size-primitive depth a p.ty p.primitive in
    let once = serialized_size-primitive 0 a p.ty p.primitive in
    (
      rw p.declared (
          rw length_size (
            visit-NotEndless (ok p.bytes) (default_string_size a) t (λ h. cc)
              (default_string_size-NotEndless a))),
      rw p.declared (rw length_size (rw once)),
    )

mutual
  unfolding visit is_displayable

  visit-displayable :
      (l d : SizeResult) (t : FppType) {s : ℤ} → visit l d t ≡ ok s → is_displayable t ≡ true
  visit-displayable l d (alias n t) h = visit-displayable l d t h
  visit-displayable l d (array (array_type n none t v)) h = cc
  visit-displayable l d (array (array_type n (some k) t v)) h =
      let (size, e, rest) = and_then-ok (visit l d t) (scale k) h in visit-displayable l d t e
  visit-displayable l d (struct (struct_type n ms v sizes)) h =
      visit_members-displayable l d sizes (pos 0) ms h
  visit-displayable l d (abs n) h = cc
  visit-displayable l d integer h = cc
  visit-displayable l d (anon_array k t) h = cc
  visit-displayable l d (anon_struct ms) h = cc
  visit-displayable l d _ h = refl

  visit_members-displayable :
      (l d : SizeResult) (sizes : List (String × ℕ)) (total : ℤ) (ms : TypeMembers) {s : ℤ}
      → visit_members l d sizes total ms ≡ ok s
      → all_displayable ms ≡ true
  visit_members-displayable l d sizes total no_members h = refl
  visit_members-displayable l d sizes total (member m t ms) h =
      let (bytes, e, rest) = and_then-ok (visit l d t) (add_member l d sizes total m ms) h in
      let (scaled, e', rest') =
        and_then-ok (scale (member_size m sizes) bytes) (add_scaled l d sizes total ms) rest in
      let (total', e'', rest'') =
        and_then-ok (ok_or too_large (checked_add total scaled))
          (λ t'. visit_members l d sizes t' ms) rest' in
      ground
        (arith, visit-displayable l d t e, visit_members-displayable l d sizes total' ms rest'')

-- Only a displayable type has a serialized size.
pub serialized_size-displayable :
    (depth : ℕ) (a : Analysis) (t : FppType) {s : ℤ}
    → serialized_size depth a t ≡ ok s
    → is_displayable t ≡ true
unfolding serialized_size
serialized_size-displayable zero a t h = visit-displayable (err endless) (default_string_size a) t h
serialized_size-displayable (suc depth) a t h =
    visit-displayable (and_then (length_type a) (serialized_size depth a)) (default_string_size a) t
      h
