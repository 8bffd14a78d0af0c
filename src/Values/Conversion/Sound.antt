-- ===== src/Values/Conversion/Sound.antt =====
-- fpp_analysis/src/semantics/value.rs: a converted value conforms to the type it was converted to.
use fpp_tools.Prelude.{
  ℕ, zero, Bool, String, suc, ◌+◌, ◌≡◌, sym, ◌∙◌, some, arith, inl, inr, Bool-cases, Option-cases,
}
use fpp_tools.Semantics.Data.{
  F64, FloatKind, abs_type_value, FppType, float, string, boolean, Value, primitive_integer_value,
  integer_value, float_value, boolean_value, string_value, enum_constant_value, enum_constant,
  enum_type, array_value, array_elements, anon_array_value, struct_value, struct_members,
  anon_struct_value,
}
use fpp_tools.Types.Structure.{underlying_type}
use fpp_tools.Types.Measure.{weight, weight-underlying_type}
use fpp_tools.Values.Arithmetic.{FloatOps}
use fpp_tools.Values.Operands.{convert_to_rep_type}
use fpp_tools.Values.Conversion.{
  Convert, conversion_measure, conversion_body, convert_value, convert_other,
  convert_to_distinct_type, promote_to_aggregate, same_definition,
}
use fpp_tools.Values.Conversion.Equation.{convert_value_lem}
use fpp_tools.Values.Conversion.Conforms.{Conforms, floats, booleans, strings, of_definition}
use fpp_tools.Values.Conversion.Shapes.{
  of_some, convert_int-Conforms, SoundBelow, convert_array-Conforms, convert_struct-Conforms,
}
use fpp_tools.Values.Conversion.Promotion.{promote_underlying-Conforms}

float_conversion-Conforms :
    (f : FloatOps) (g : Convert) (a : F64) (k : FloatKind) (t ty : FppType) {w : Value}
    → convert_other g f (float_value a k) t ty ≡ some w
    → Conforms w ty
unfolding convert_other
float_conversion-Conforms f g a k t (float to_kind) h =
    of_some (λ w. Conforms w (float to_kind)) h floats
float_conversion-Conforms f g a k t ty h = convert_int-Conforms f (f.f64_to_i32 a) ty h

boolean_conversion-Conforms :
    (f : FloatOps) (g : Convert) (b : Bool) (t ty : FppType) {w : Value}
    → convert_other g f (boolean_value b) t ty ≡ some w
    → Conforms w ty
unfolding convert_other
boolean_conversion-Conforms f g b t boolean h = of_some (λ w. Conforms w boolean) h booleans
boolean_conversion-Conforms f g b t _ h = cc

string_conversion-Conforms :
    (f : FloatOps) (g : Convert) (s : String) (t ty : FppType) {w : Value}
    → convert_other g f (string_value s) t ty ≡ some w
    → Conforms w ty
unfolding convert_other
string_conversion-Conforms f g s t (string size) h =
    of_some (λ w. Conforms w (string size)) h strings
string_conversion-Conforms f g s t _ h = cc

module _ (f : FloatOps) (g : Convert) where
  at_type :
      (v : Value) (t : FppType)
      → SoundBelow g (conversion_measure (v, t))
      → SoundBelow g (weight t + weight t)
  at_type v t sound b w lt = sound b w (omega arith)

  convert_other-Conforms :
      (v : Value) (t : FppType) {w : Value}
      → SoundBelow g (conversion_measure (v, t))
      → convert_other g f v t (underlying_type t) ≡ some w
      → Conforms w (underlying_type t)
  unfolding convert_other convert_to_rep_type
  convert_other-Conforms (primitive_integer_value a k) t sound h =
      convert_int-Conforms f a (underlying_type t) h
  convert_other-Conforms (integer_value a) t sound h =
      convert_int-Conforms f a (underlying_type t) h
  convert_other-Conforms (float_value a k) t sound h =
      float_conversion-Conforms f g a k t (underlying_type t) h
  convert_other-Conforms (boolean_value b) t sound h =
      boolean_conversion-Conforms f g b t (underlying_type t) h
  convert_other-Conforms (string_value s) t sound h =
      string_conversion-Conforms f g s t (underlying_type t) h
  convert_other-Conforms (enum_constant_value (enum_constant n x (enum_type d k e))) t {w} sound h =
      sound (primitive_integer_value x k, t) w (omega arith) h
  convert_other-Conforms (anon_array_value a) t sound h =
      convert_array-Conforms g t (at_type (anon_array_value a) t sound) a (underlying_type t)
        (weight-underlying_type t) h
  convert_other-Conforms (array_value (array_elements a at)) t sound h =
      convert_array-Conforms g t (at_type (array_value (array_elements a at)) t sound) a
        (underlying_type t) (weight-underlying_type t) h
  convert_other-Conforms (anon_struct_value ms) t sound h =
      convert_struct-Conforms g t (at_type (anon_struct_value ms) t sound) ms (underlying_type t)
        (weight-underlying_type t) h
  convert_other-Conforms (struct_value (struct_members ms st)) t sound h =
      convert_struct-Conforms g t (at_type (struct_value (struct_members ms st)) t sound) ms
        (underlying_type t) (weight-underlying_type t) h
  convert_other-Conforms (abs_type_value n) t sound h = cc

  convert_to_distinct_type-Conforms :
      (v : Value) (t : FppType) {w : Value}
      → SoundBelow g (conversion_measure (v, t))
      → convert_to_distinct_type g f v t ≡ some w
      → Conforms w (underlying_type t)
  unfolding convert_to_distinct_type
  convert_to_distinct_type-Conforms v t sound h =
      elim (Bool-cases (same_definition v (underlying_type t))) [
        | inl p ↦ of_some (λ w. Conforms w (underlying_type t)) (rw p at h) (of_definition p)
        | inr p ↦ convert_other-Conforms v t sound (rw p at h)
      ]

  conversion_body-Conforms :
      (v : Value) (t : FppType) {w : Value}
      → SoundBelow g (conversion_measure (v, t))
      → conversion_body f g (v, t) ≡ some w
      → Conforms w (underlying_type t)
  unfolding conversion_body promote_to_aggregate
  conversion_body-Conforms v t sound h = elim (Option-cases (convert_to_distinct_type g f v t)) [
    | inl p ↦
        promote_underlying-Conforms g t (at_type v t sound) v (underlying_type t)
          (weight-underlying_type t) (rw (conversion_body, p) at h)
    | inr (x, p) ↦ convert_to_distinct_type-Conforms v t sound (p ∙ (rw (conversion_body, p) at h))
  ]

convert_value-SoundBelow : (f : FloatOps) (n : ℕ) → SoundBelow (convert_value f) n
convert_value-SoundBelow f zero (v, t) w lt h = absurd (omega arith)
convert_value-SoundBelow f (suc n) (v, t) w lt h =
    conversion_body-Conforms f (convert_value f) v t
      (λ b w' lt' h'. convert_value-SoundBelow f n b w' (omega arith) h')
      (sym (convert_value_lem f (v, t)) ∙ h)

-- What a conversion to a type gives conforms to that type: it is a value of the definition that the
-- type names, or it has the type's kind, its size and its members, each of which conforms to its own
-- type or is the default value of that type.
pub convert_value-Conforms :
    (f : FloatOps) (v : Value) (t : FppType) {w : Value}
    → convert_value f (v, t) ≡ some w
    → Conforms w (underlying_type t)
convert_value-Conforms f v t {w} h =
    convert_value-SoundBelow f (suc (conversion_measure (v, t))) (v, t) w (omega arith) h
