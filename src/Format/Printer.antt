-- ===== src/Format/Printer.antt =====
-- fpp_analysis/src/semantics/format.rs: the text of a format, by the grammar in the parser's comment.
use fpp_tools.Prelude.{
  ℕ, ◌==◌, ◌≡◌, true, false, List, [], ◌∷◌, ◌++◌, none, some, if◌then◌else◌, All,
}
use fpp_tools.Format.Syntax.{
  IntegerFormatKind, character, decimal, hexadecimal, octal, RationalFormatKind, exponent, fixed,
  general, Field, is_digit, FieldAndSuffix, ParsedFormat,
}
use fpp_tools.Format.Parser.{open_brace, close_brace, is_brace}

-- A text with its braces doubled.
unfoldable pub print_string : List ℕ → List ℕ
print_string [] = []
print_string (c ∷ s) = let rest = print_string s in if is_brace c then c ∷ c ∷ rest else c ∷ rest

abbrev pub integer_letter : IntegerFormatKind → ℕ
integer_letter character = b'c'
integer_letter decimal = b'd'
integer_letter hexadecimal = b'x'
integer_letter octal = b'o'

abbrev pub rational_letter : RationalFormatKind → ℕ
rational_letter exponent = b'e'
rational_letter fixed = b'f'
rational_letter general = b'g'

-- What stands behind the opening brace of a field.
unfoldable pub print_field : Field → List ℕ
print_field Field.default = close_brace ∷ []
print_field (Field.integer k) = integer_letter k ∷ close_brace ∷ []
print_field (Field.rational none k) = rational_letter k ∷ close_brace ∷ []
print_field (Field.rational (some p) k) = b'.' ∷ (p ++ rational_letter k ∷ close_brace ∷ [])

unfoldable pub print_fields : List FieldAndSuffix → List ℕ
print_fields [] = []
print_fields (f ∷ fs) =
    open_brace ∷ (print_field f.field ++ (print_string f.suffix ++ print_fields fs))

unfoldable pub print : ParsedFormat → List ℕ
unfolding print_fields print_string print_field
print format = print_string format.prefix ++ print_fields format.fields

-- A precision as the parser gives it: digits, and no leading zero but in "0".
abbrev pub NoLeadingZero : List ℕ → Type 0
NoLeadingZero [] = ⊥
NoLeadingZero (d ∷ []) = Unit {0}
NoLeadingZero (d ∷ e ∷ ds) = (d == b'0') ≡ false

abbrev pub ValidField : Field → Type 0
ValidField (Field.rational (some p) k) = NoLeadingZero p × All (λ d. is_digit d ≡ true) p
ValidField f = Unit {0}
