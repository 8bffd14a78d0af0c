-- ===== src/Format/Parser.antt =====
-- fpp_analysis/src/semantics/format.rs: the recursive descent parser of format strings. The state of
-- the parser is its position and the characters from there on.
use fpp_tools.Prelude.{
  ℕ, zero, suc, ◌+◌, ◌==◌, Bool, ◌&&◌, ◌||◌, List, [], ◌∷◌, Option, none, some, if◌then◌else◌,
  Result, ok, err, and_then, length,
}
use fpp_tools.Format.Syntax.{
  character, decimal, hexadecimal, octal, RationalFormatKind, exponent, fixed, general, Span, Field,
  is_digit, FieldAndSuffix, ParsedFormat,
}

pub record Cursor : Type 0 where
  pub position : ℕ
  pub rest : List ℕ

-- What the source's message says, with the character that it shows.
pub data Message : Type 0 where
  illegal_character invalid_replacement_field rational_type_expected : Message
  brace_expected digits_expected : Option ℕ → Message
  -- No message of the source: the fuel of `format_fields` ran out.
  out_of_fuel : Message

pub record ParseError : Type 0 where
  pub msg : Message
  pub at : ℕ

abbrev pub ParseResult : Type 0 → Type 0
ParseResult A = Result (A × Cursor) ParseError

abbrev pub peek : List ℕ → Option ℕ
peek [] = none
peek (c ∷ cs) = some c

abbrev pub open_brace : ℕ
open_brace = b'{'

abbrev pub close_brace : ℕ
close_brace = b'}'

abbrev pub is_brace : ℕ → Bool
is_brace c = c == open_brace || c == close_brace

abbrev pub push : ℕ → List ℕ × Cursor → List ℕ × Cursor
push c (out, cur) = (c ∷ out, cur)

-- A literal string, in which a doubled brace stands for a brace.
unfoldable pub string : ℕ → List ℕ → List ℕ × Cursor
string p [] = ([], record { position = p; rest = [] })
string p (c ∷ []) =
    if is_brace c
    then ([], record { position = p; rest = c ∷ [] })
    else (c ∷ [], record { position = p + 1; rest = [] })
string p (c ∷ d ∷ rest) =
    let doubled = push c (string (p + 2) rest) in
    let plain = push c (string (p + 1) (d ∷ rest)) in
    if (c == open_brace && d == open_brace) || (c == close_brace && d == close_brace)
    then doubled
    else if is_brace c
    then ([], record { position = p; rest = c ∷ d ∷ rest })
    else plain

abbrev pub fail {ℓ} : {A : Type ℓ} → Message → Cursor → Result A ParseError
fail m cur = err (record { msg = m; at = cur.position })

-- The digits at the front, and what follows them.
unfoldable pub take_digits : ℕ → List ℕ → List ℕ × Cursor
take_digits p [] = ([], record { position = p; rest = [] })
take_digits p (c ∷ cs) =
    let more = push c (take_digits (p + 1) cs) in
    if is_digit c then more else ([], record { position = p; rest = c ∷ cs })

-- `digits.trim_start_matches('0')`.
unfoldable pub trim_zeros : List ℕ → List ℕ
trim_zeros [] = []
trim_zeros (c ∷ cs) = let more = trim_zeros cs in if c == b'0' then more else c ∷ cs

abbrev pub or_zero_digit : List ℕ → List ℕ
or_zero_digit [] = b'0' ∷ []
or_zero_digit (c ∷ cs) = c ∷ cs

unfoldable pub finish_precision : List ℕ × Cursor → ParseResult (List ℕ)
unfolding trim_zeros
finish_precision ([], cur) = fail (digits_expected (peek cur.rest)) cur
finish_precision (d ∷ ds, cur) = ok (or_zero_digit (trim_zeros (d ∷ ds)), cur)

-- A precision, after its dot: `p` and `cs` are the state behind the dot.
unfoldable pub precision : ℕ → List ℕ → ParseResult (List ℕ)
unfolding take_digits finish_precision
precision p cs = finish_precision (take_digits p cs)

unfoldable pub rational_type : Cursor → ParseResult RationalFormatKind
rational_type cur = elim cur.rest [
  | [] ↦ fail rational_type_expected cur
  | c ∷ cs ↦
      let next : Cursor = record { position = cur.position + 1; rest = cs } in
      if c == b'e'
      then ok (exponent, next)
      else if c == b'f'
      then ok (fixed, next)
      else if c == b'g'
      then ok (general, next)
      else fail rational_type_expected cur
]

-- The field between its braces: `p` and the list are the state behind the opening brace.
unfoldable pub field_body : ℕ → List ℕ → ParseResult Field
unfolding precision rational_type
field_body p [] = fail invalid_replacement_field (record { position = p; rest = [] })
field_body p (c ∷ cs) =
    let here : Cursor = record { position = p; rest = c ∷ cs } in
    let next : Cursor = record { position = p + 1; rest = cs } in
    let with_precision = and_then (precision (p + 1) cs) λ (digits, cur).
      and_then (rational_type cur) λ (kind, cur'). ok (Field.rational (some digits) kind, cur') in
    if c == b'c'
    then ok (Field.integer character, next)
    else if c == b'd'
    then ok (Field.integer decimal, next)
    else if c == b'x'
    then ok (Field.integer hexadecimal, next)
    else if c == b'o'
    then ok (Field.integer octal, next)
    else if c == b'.'
    then with_precision
    else if c == b'e' || (c == b'f' || c == b'g')
    then (and_then (rational_type here) λ (kind, cur'). ok (Field.rational none kind, cur'))
    else fail invalid_replacement_field here

abbrev pub close_field : ℕ → Field × Cursor → ParseResult (Field × Span)
close_field start (f, cur) = elim cur.rest [
  | [] ↦ fail (brace_expected none) cur
  | c ∷ cs ↦
      if c == close_brace
      then ok (
        (f, record { start = start; end = cur.position + 1 }),
        record { position = cur.position + 1; rest = cs },
      )
      else fail (brace_expected (some c)) cur
]

-- The field whose opening brace stands at `start`, from the state behind that brace.
unfoldable pub field_after_brace : ℕ → List ℕ → ParseResult (Field × Span)
unfolding field_body
field_after_brace start cs =
    let other = and_then (field_body (start + 1) cs) (close_field start) in
    elim cs [
      | [] ↦ other
      | c ∷ rest ↦
          if c == close_brace
          then ok (
            (Field.default, record { start = start; end = start + 2 }),
            record { position = start + 2; rest = rest },
          )
          else other
    ]

-- `format`, from its first field on, and the check of `parse_all_input` that nothing is left. Each
-- field takes two characters at least.
unfoldable pub format_fields : ℕ → Cursor → Result (List FieldAndSuffix) ParseError
unfolding field_after_brace string
format_fields zero cur = fail out_of_fuel cur
format_fields (suc fuel) cur = elim cur.rest [
  | [] ↦ ok []
  | c ∷ cs ↦
      if c == open_brace
      then (and_then (field_after_brace cur.position cs) λ ((f, span), next).
          let (suffix, cur') = string next.position next.rest in
          and_then (format_fields fuel cur')
            λ fs. ok (record { field = f; span = span; suffix = suffix } ∷ fs))
      else fail illegal_character cur
]

-- `parse_all_input`.
unfoldable pub parse_all_input : List ℕ → Result ParsedFormat ParseError
unfolding format_fields
parse_all_input chars =
    let (prefix, cur) = string 0 chars in
    and_then (format_fields (length chars + 1) cur)
      λ fs. ok (record { prefix = prefix; fields = fs })
