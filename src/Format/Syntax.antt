-- ===== src/Format/Syntax.antt =====
-- fpp_analysis/src/semantics/format.rs: the data of formats. Texts are lists of code points, and the
-- location of a field is its range of characters in the format string.
use fpp_tools.Prelude.{
  ℕ, suc, ◌+◌, ◌-◌, ◌*◌, leb, ltb, ◌==◌, Bool, true, false, ◌&&◌, List, [], ◌∷◌, ◌++◌, Option, none,
  some, if◌then◌else◌, get_elem?,
}

pub data IntegerFormatKind : Type 0 where
  character decimal hexadecimal octal : IntegerFormatKind

pub data RationalFormatKind : Type 0 where
  exponent fixed general : RationalFormatKind

pub data FormatReplacementKind : Type 0 where
  default : FormatReplacementKind
  integer : IntegerFormatKind → FormatReplacementKind
  rational : Option ℕ → RationalFormatKind → FormatReplacementKind

pub record Span : Type 0 where
  pub start : ℕ
  pub end : ℕ

pub record FormatReplacementField : Type 0 where
  pub span : Span
  pub kind : FormatReplacementKind

pub data FormatPart : Type 0 where
  literal : List ℕ → FormatPart
  format_replacement : FormatReplacementField → FormatPart

-- `Format`, and `Format::iter`, `len`, `is_empty` and `get`.
abbrev pub Format : Type 0
Format = List FormatPart

unfoldable pub iter : Format → List FormatReplacementField
iter [] = []
iter (literal s ∷ parts) = iter parts
iter (format_replacement f ∷ parts) = f ∷ iter parts

unfoldable pub len : Format → ℕ
len [] = 0
len (literal s ∷ parts) = len parts
len (format_replacement f ∷ parts) = suc (len parts)

unfoldable pub is_empty : Format → Bool
unfolding len
is_empty format = len format == 0

unfoldable pub get : Format → ℕ → Option FormatReplacementField
unfolding iter
get format n = get_elem? (iter format) n

-- A field as the parser reads it: a precision is its decimal digits, with no leading zeros.
pub data Field : Type 0 where
  default : Field
  integer : IntegerFormatKind → Field
  rational : Option (List ℕ) → RationalFormatKind → Field

abbrev pub max_precision : ℕ
max_precision = 100

unfoldable pub is_integer : Field → Bool
is_integer (Field.integer k) = true
is_integer f = false

unfoldable pub is_rational : Field → Bool
is_rational (Field.rational p k) = true
is_rational f = false

abbrev pub is_digit : ℕ → Bool
is_digit c = leb b'0' c && leb c b'9'

-- `precision.parse::<u32>()` and the like, of a non-empty list of digits: none at or above `limit`.
unfoldable pub parse_decimal : ℕ → ℕ → List ℕ → Option ℕ
parse_decimal limit n [] = if ltb n limit then some n else none
parse_decimal limit n (d ∷ ds) = parse_decimal limit (10 * n + (d - b'0')) ds

unfoldable pub exceeds_max_precision : List ℕ → Bool
unfolding parse_decimal
exceeds_max_precision precision = elim (parse_decimal 4294967296 0 precision) [
  | none ↦ true
  | some p ↦ ltb max_precision p
]

unfoldable pub i32_of_digits : List ℕ → ℕ
unfolding parse_decimal
i32_of_digits p = elim (parse_decimal 2147483648 0 p) [ none ↦ 2147483647 | some n ↦ n ]

unfoldable pub field_kind : Field → FormatReplacementKind
unfolding i32_of_digits
field_kind Field.default = FormatReplacementKind.default
field_kind (Field.integer k) = FormatReplacementKind.integer k
field_kind (Field.rational none k) = FormatReplacementKind.rational none k
field_kind (Field.rational (some p) k) = FormatReplacementKind.rational (some (i32_of_digits p)) k

-- A field, its location, and the text that follows it.
pub record FieldAndSuffix : Type 0 where
  pub field : Field
  pub span : Span
  pub suffix : List ℕ

pub record ParsedFormat : Type 0 where
  pub prefix : List ℕ
  pub fields : List FieldAndSuffix

abbrev literal_parts : List ℕ → Format
literal_parts [] = []
literal_parts (c ∷ s) = literal (c ∷ s) ∷ []

unfoldable pub field_parts : List FieldAndSuffix → Format
unfolding field_kind
field_parts [] = []
field_parts (f ∷ fs) =
    format_replacement (record { span = f.span; kind = field_kind f.field })
    ∷ (literal_parts f.suffix ++ field_parts fs)

-- `Format::from`.
unfoldable pub from_parsed : ParsedFormat → Format
unfolding field_parts
from_parsed format = literal_parts format.prefix ++ field_parts format.fields
