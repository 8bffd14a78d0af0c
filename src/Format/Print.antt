-- ===== src/Format/Print.antt =====
-- fpp_analysis/src/semantics/format.rs: parsing reads back the text of a format.
use fpp_tools.Prelude.{
  ℕ, zero, suc, ◌+◌, ◌<◌, ◌==◌, ◌≡◌, refl, true, false, List, [], ◌∷◌, ◌++◌, none, some, inl, inr,
  ok, All, length, length-append, arith, Bool-cases,
}
use native.Mathlib.Nat.{add-zero}
use mathlib.Core.List.{append_assoc}
use fpp_tools.Format.Syntax.{
  RationalFormatKind, exponent, fixed, general, Field, is_digit, FieldAndSuffix, ParsedFormat,
}
use fpp_tools.Format.Parser.{
  open_brace, close_brace, is_brace, string, take_digits, trim_zeros, precision, rational_type,
  field_after_brace, format_fields, parse_all_input, push, or_zero_digit,
}
use fpp_tools.Format.Printer.{
  print_string, rational_letter, print_field, print_fields, print, NoLeadingZero, ValidField,
}

string-doubled :
    (p c : ℕ) (xs : List ℕ) → is_brace c ≡ true → string p (c ∷ c ∷ xs) ≡ push c (string (p + 2) xs)
unfolding string
string-doubled p c xs h = ground arith

string-plain :
    (p c : ℕ) (xs : List ℕ) → is_brace c ≡ false → string p (c ∷ xs) ≡ push c (string (p + 1) xs)
unfolding string
string-plain p c [] h = ground arith
string-plain p c (d ∷ xs) h = ground arith

-- Where a text ends: at the end of the input, or at a brace that is not doubled.
abbrev pub IsStop : List ℕ → Type 0
IsStop [] = Unit {0}
IsStop (c ∷ []) = is_brace c ≡ true
IsStop (c ∷ d ∷ xs) = (c ≡ open_brace) × ((d == open_brace) ≡ false)

string-stop :
    (p : ℕ) (xs : List ℕ) → IsStop xs → string p xs ≡ ([], record { position = p; rest = xs })
unfolding string
string-stop p [] h = refl
string-stop p (c ∷ []) h = ground arith
string-stop p (c ∷ d ∷ xs) h = ground arith

pub string-print_string :
    (p : ℕ) (s xs : List ℕ)
    → IsStop xs
    → string p (print_string s ++ xs)
      ≡ (s, record { position = p + length (print_string s); rest = xs })
unfolding print_string
string-print_string p [] xs h = rw (string-stop p xs h) (rw add-zero refl)
string-print_string p (c ∷ s) xs h = elim (Bool-cases (is_brace c)) [
  | inl e ↦ rw e (
      rw (string-doubled p c (print_string s ++ xs) e)
        (rw (string-print_string (p + 2) s xs h) (ground arith)))
  | inr e ↦ rw e (
      rw (string-plain p c (print_string s ++ xs) e)
        (rw (string-print_string (p + 1) s xs h) (ground arith)))
]

-- The digits of a precision are read up to the letter behind them.
take_digits-append :
    (p k : ℕ) (ds xs : List ℕ)
    → All (λ d. is_digit d ≡ true) ds
    → is_digit k ≡ false
    → take_digits p (ds ++ k ∷ xs) ≡ (ds, record { position = p + length ds; rest = k ∷ xs })
unfolding take_digits
take_digits-append p k [] xs h e = rw e (rw add-zero refl)
take_digits-append p k (d ∷ ds) xs h e =
    rw (h.0) (rw (take_digits-append (p + 1) k ds xs h.1 e) (ground arith))

trim_zeros_lem : (ds : List ℕ) → NoLeadingZero ds → or_zero_digit (trim_zeros ds) ≡ ds
unfolding trim_zeros
trim_zeros_lem [] h = absurd h
trim_zeros_lem (d ∷ []) h = elim (Bool-cases (d == b'0')) [
  | inl e ↦ ground arith
  | inr e ↦ ground arith
]
trim_zeros_lem (d ∷ e ∷ ds) h = ground arith

is_digit-rational_letter : (k : RationalFormatKind) → is_digit (rational_letter k) ≡ false
is_digit-rational_letter k = ground arith

precision-print :
    (p : ℕ) (ds : List ℕ) (k : RationalFormatKind) (xs : List ℕ)
    → NoLeadingZero ds
    → All (λ d. is_digit d ≡ true) ds
    → precision p (ds ++ rational_letter k ∷ xs)
      ≡ ok (ds, record { position = p + length ds; rest = rational_letter k ∷ xs })
unfolding precision
precision-print p [] k xs n h = absurd n
precision-print p (d ∷ ds) k xs n h =
    rw (take_digits-append p (rational_letter k) (d ∷ ds) xs h (is_digit-rational_letter k))
      (rw (trim_zeros_lem (d ∷ ds) n) refl)

rational_type-print :
    (p : ℕ) (k : RationalFormatKind) (xs : List ℕ)
    → rational_type (record { position = p; rest = rational_letter k ∷ xs })
      ≡ ok (k, record { position = p + 1; rest = xs })
unfolding rational_type
rational_type-print p exponent xs = refl
rational_type-print p fixed xs = refl
rational_type-print p general xs = refl

-- A printed field is read back, with its range of characters.
field_after_brace-print_field :
    (start : ℕ) (f : Field) (xs : List ℕ)
    → ValidField f
    → field_after_brace start (print_field f ++ xs)
      ≡ ok (
        (f, record { start = start; end = start + 1 + length (print_field f) }),
        record { position = start + 1 + length (print_field f); rest = xs },
      )
unfolding field_after_brace print_field
field_after_brace-print_field start Field.default xs v = ground arith
field_after_brace-print_field start (Field.integer k) xs v = ground arith
field_after_brace-print_field start (Field.rational none exponent) xs v = ground arith
field_after_brace-print_field start (Field.rational none fixed) xs v = ground arith
field_after_brace-print_field start (Field.rational none general) xs v = ground arith
field_after_brace-print_field start (Field.rational (some p) k) xs v = rw append_assoc (
    rw (precision-print (start + 1 + 1) p k (close_brace ∷ xs) v.0 v.1) (
      rw (rational_type-print (start + 1 + 1 + length p) k (close_brace ∷ xs))
        (ground (arith, length-append p (rational_letter k ∷ close_brace ∷ [])))))

-- The fields with the ranges that they have where they are printed from position `p` on.
unfoldable pub locate_fields : ℕ → List FieldAndSuffix → List FieldAndSuffix
locate_fields p [] = []
locate_fields p (f ∷ fs) =
    let end = p + 1 + length (print_field f.field) in
    record { field = f.field; span = record { start = p; end = end }; suffix = f.suffix }
    ∷ locate_fields (end + length (print_string f.suffix)) fs

unfoldable pub locate : ParsedFormat → ParsedFormat
unfolding locate_fields
locate format = record format {
  fields = locate_fields (length (print_string format.prefix)) format.fields;
}

IsStop-print_fields : (fs : List FieldAndSuffix) → IsStop (print_fields fs)
unfolding print_fields print_field
IsStop-print_fields [] = tt
IsStop-print_fields (f ∷ fs) = stop f.field (print_string f.suffix ++ print_fields fs)
  where
    stop : (g : Field) (xs : List ℕ) → IsStop (open_brace ∷ (print_field g ++ xs))
    stop Field.default xs = (refl, refl)
    stop (Field.integer k) xs = (refl, ground arith)
    stop (Field.rational none k) xs = (refl, ground arith)
    stop (Field.rational (some p) k) xs = (refl, refl)

format_fields-print_fields :
    (fuel p : ℕ) (fs : List FieldAndSuffix)
    → All (λ f. ValidField f.field) fs
    → length (print_fields fs) < fuel
    → format_fields fuel (record { position = p; rest = print_fields fs }) ≡ ok (locate_fields p fs)
unfolding format_fields print_fields locate_fields
format_fields-print_fields zero p fs v h = absurd (omega arith)
format_fields-print_fields (suc fuel) p [] v h = refl
format_fields-print_fields (suc fuel) p (f ∷ fs) v h =
    let tail = print_string f.suffix ++ print_fields fs in
    let end = p + 1 + length (print_field f.field) in
    rw (field_after_brace-print_field p f.field tail v.0) (
      rw (string-print_string end f.suffix (print_fields fs) (IsStop-print_fields fs)) (
        rw
          (format_fields-print_fields fuel (end + length (print_string f.suffix)) fs v.1 (
            omega (
              arith,
              length-append (print_field f.field) tail,
              length-append (print_string f.suffix) (print_fields fs),
            )))
          refl))

-- Printing and parsing: the text of a format whose precisions are digits with no leading zeros parses
-- to that format, each field with the range of characters where it stands in the text.
pub parse_all_input-print :
    (format : ParsedFormat)
    → All (λ f. ValidField f.field) format.fields
    → parse_all_input (print format) ≡ ok (locate format)
unfolding parse_all_input print locate
parse_all_input-print format v =
    rw
      (string-print_string 0 format.prefix (print_fields format.fields)
        (IsStop-print_fields format.fields))
      (rw
        (format_fields-print_fields
          (length (print_string format.prefix ++ print_fields format.fields) + 1)
          (0 + length (print_string format.prefix)) format.fields v
          (omega (arith, length-append (print_string format.prefix) (print_fields format.fields))))
        (ground arith))
