-- ===== src/Types/Size/Exact.antt =====
-- fpp_analysis/src/semantics/types.rs: a serialized size is the exact one.
use fpp_tools.Prelude.{
  and_then-ok, ℕ, suc, ◌≡◌, refl, sym, String, true, List, Option, none, some, ℤ, pos, ◌+ℤ◌, ◌*ℤ◌,
  ok, err, and_then, ok_or, arith,
}
use fpp_tools.Prelude.I128.{in_i128, checked_add}
use fpp_tools.Semantics.Data.{
  IntegerKind, FloatKind, FppType, primitive_int, float, string, boolean, abs, alias, array, enum,
  struct, array_type, enum_type, struct_type, TypeMembers, no_members, member,
}
use fpp_tools.Types.Size.{
  SizeResult, Analysis, too_large, primitive_int_size, float_size, scale, member_size, string_size,
  visit, visit_members, length_type, default_string_size, serialized_size,
}

-- The size over the unbounded integers, for a string length of `length` bytes and strings of `bytes`
-- bytes where no size is given.
mutual
  pub exact_size : ℤ → ℤ → FppType → ℤ
  exact_size length bytes (alias n t) = exact_size length bytes t
  exact_size length bytes (array (array_type n (some s) t d)) = pos s *ℤ exact_size length bytes t
  exact_size length bytes (primitive_int k) = primitive_int_size k
  exact_size length bytes (float k) = float_size k
  exact_size length bytes (enum (enum_type n k d)) = primitive_int_size k
  exact_size length bytes boolean = pos 1
  exact_size length bytes (string (some size)) = length +ℤ size
  exact_size length bytes (string none) = length +ℤ bytes
  exact_size length bytes (struct (struct_type n ms d sizes)) =
      exact_sum length bytes sizes (pos 0) ms
  exact_size length bytes t = pos 0

  pub exact_sum : ℤ → ℤ → List (String × ℕ) → ℤ → TypeMembers → ℤ
  exact_sum length bytes sizes total no_members = total
  exact_sum length bytes sizes total (member m t ms) =
      exact_sum length bytes sizes (total +ℤ pos (member_size m sizes) *ℤ exact_size length bytes t)
        ms

abbrev pub or_zero : SizeResult → ℤ
or_zero (ok size) = size
or_zero (err e) = pos 0

scale-exact : (n : ℕ) (size : ℤ) {s : ℤ} → scale n size ≡ ok s → pos n *ℤ size ≡ s
unfolding scale
scale-exact n size h = ground arith

add-exact :
    (a b : ℤ) {s : ℤ} → ok_or too_large (checked_add a b) ≡ ok s → (a +ℤ b ≡ s) × (in_i128 s ≡ true)
unfolding checked_add
add-exact a b {s} h = ground arith

scale-in_i128 : (n : ℕ) (size : ℤ) {s : ℤ} → scale n size ≡ ok s → in_i128 s ≡ true
unfolding scale
scale-in_i128 n size h = ground arith

-- What `visit_members` does after it has the size of a member, and after it has scaled it.
abbrev pub add_scaled :
    SizeResult → SizeResult → List (String × ℕ) → ℤ → TypeMembers → ℤ → SizeResult
add_scaled l d sizes total ms scaled =
    and_then (ok_or too_large (checked_add total scaled))
      λ total'. visit_members l d sizes total' ms

abbrev pub add_member :
    SizeResult → SizeResult → List (String × ℕ) → ℤ → String → TypeMembers → ℤ → SizeResult
add_member l d sizes total m ms bytes =
    and_then (scale (member_size m sizes) bytes) (add_scaled l d sizes total ms)

string_size-exact :
    (l d : SizeResult) (size : Option ℤ) {s : ℤ}
    → string_size l d size ≡ ok s
    → (exact_size (or_zero l) (or_zero d) (string size) ≡ s) × (in_i128 s ≡ true)
unfolding string_size exact_size
string_size-exact (ok l) d (some v) h = add-exact l v h
string_size-exact (ok l) (ok d) none h = add-exact l d h
string_size-exact (ok l) (err e) none h = cc
string_size-exact (err e) d size h = cc

primitive_int_size-in_i128 : (k : IntegerKind) → in_i128 (primitive_int_size k) ≡ true
unfolding in_i128 primitive_int_size
primitive_int_size-in_i128 k = ground arith

float_size-in_i128 : (k : FloatKind) → in_i128 (float_size k) ≡ true
unfolding in_i128 float_size
float_size-in_i128 k = ground arith

zero-in_i128 : in_i128 (pos 0) ≡ true
unfolding in_i128
zero-in_i128 = refl

one-in_i128 : in_i128 (pos 1) ≡ true
unfolding in_i128
one-in_i128 = refl

mutual
  unfolding visit exact_size

  visit-exact :
      (l d : SizeResult) (t : FppType) {s : ℤ}
      → visit l d t ≡ ok s
      → (exact_size (or_zero l) (or_zero d) t ≡ s) × (in_i128 s ≡ true)
  visit-exact l d (alias n t) h = visit-exact l d t h
  visit-exact l d (array (array_type n none t v)) h = cc
  visit-exact l d (array (array_type n (some k) t v)) {s} h =
      let (size, e, scaled) = and_then-ok (visit l d t) (scale k) h in
      let exact = (visit-exact l d t e).0 in
      (rw exact (scale-exact k size scaled), scale-in_i128 k size scaled)
  visit-exact l d boolean {s} h =
      let one : pos 1 ≡ s = ground arith in (one, rw (← one) one-in_i128)
  visit-exact l d (enum (enum_type n k v)) {s} h =
      let size : primitive_int_size k ≡ s = ground arith in
      (size, rw (← size) (primitive_int_size-in_i128 k))
  visit-exact l d (float k) {s} h =
      let size : float_size k ≡ s = ground arith in (size, rw (← size) (float_size-in_i128 k))
  visit-exact l d (primitive_int k) {s} h =
      let size : primitive_int_size k ≡ s = ground arith in
      (size, rw (← size) (primitive_int_size-in_i128 k))
  visit-exact l d (string size) h = string_size-exact l d size h
  visit-exact l d (struct (struct_type n ms v sizes)) h =
      visit_members-exact l d sizes (pos 0) ms zero-in_i128 h
  visit-exact l d (abs n) h = cc
  visit-exact l d t h = cc

  visit_members-exact :
      (l d : SizeResult) (sizes : List (String × ℕ)) (total : ℤ) (ms : TypeMembers) {s : ℤ}
      → in_i128 total ≡ true
      → visit_members l d sizes total ms ≡ ok s
      → (exact_sum (or_zero l) (or_zero d) sizes total ms ≡ s) × (in_i128 s ≡ true)
  visit_members-exact l d sizes total no_members {s} r h =
      let done : total ≡ s = ground arith in (done, rw (← done) r)
  visit_members-exact l d sizes total (member m t ms) r h =
      let (bytes, e, rest) = and_then-ok (visit l d t) (add_member l d sizes total m ms) h in
      let (scaled, e', rest') =
        and_then-ok (scale (member_size m sizes) bytes) (add_scaled l d sizes total ms) rest in
      let (total', e'', rest'') =
        and_then-ok (ok_or too_large (checked_add total scaled))
          (λ t'. visit_members l d sizes t' ms) rest' in
      let exact = (visit-exact l d t e).0 in
      let product = scale-exact (member_size m sizes) bytes e' in
      let (sum, range) = add-exact total scaled e'' in
      let (result, range') = visit_members-exact l d sizes total' ms range rest'' in
      (rw (exact, product, sum) result, range')

-- A size that `serialized_size` gives is the exact size, without any wrap-around, and fits an `i128`.
-- In it a string counts the bytes of its length, which are those of `FwSizeStoreType`, and of its
-- given or default size; an array its size times that of its element; a struct the sum over its
-- members, each counted as often as its size says.
pub serialized_size-exact :
    (depth : ℕ) (a : Analysis) (t : FppType) {s : ℤ}
    → serialized_size (suc depth) a t ≡ ok s
    → (s
        ≡ exact_size
            (or_zero (and_then (length_type a) (serialized_size depth a)))
            (or_zero (default_string_size a))
            t)
      × (in_i128 s ≡ true)
unfolding serialized_size
serialized_size-exact depth a t h =
    let (exact, range) =
      visit-exact (and_then (length_type a) (serialized_size depth a)) (default_string_size a) t
        h in
    (sym exact, range)
