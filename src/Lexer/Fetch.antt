-- ===== src/Lexer/Fetch.antt =====
-- fpp_lexer/src/lexer.rs: `fetch_token`.
use fpp_tools.Prelude.{ℕ, ◌-◌, ◌==◌, ltb, Bool, true, ◌||◌, Option, none, some, if◌then◌else◌}
use fpp_tools.Lexer.Chars.{lf, within, is_ascii_digit, is_digit_of, is_identifier_first}
use fpp_tools.Lexer.Token.{
  TokenKind, eof, whitespace, comment, unknown, post_annotation, pre_annotation, literal_string,
  colon, comma, dot, eol, equals, left_curly, left_square, left_paren, minus, plus, right_arrow,
  right_curly, right_square, right_paren, semi, slash, star, shift_left, shift_right,
}
use fpp_tools.Lexer.Cursor.{
  invalid_dollar, invalid_number, expected_line_continuation, lone_less, lone_greater,
  unicode_value, Lexer, error_at, error, bump, first, second, skip, eat_while,
}
use fpp_tools.Lexer.Scan.{
  not_lf, eat_line_comment, fetch_annotation_rest, fetch_ident_rest, fetch_string_lit_multi_indent,
  fetch_string_lit_multi, fetch_string_lit_single, fetch_fraction, fetch_number, quote,
}

abbrev pub is_space : ℕ → Bool
is_space c = c == b' '

abbrev pub is_lf : ℕ → Bool
is_lf c = c == lf

-- The arms of `fetch_token` that are longer than a line, with the state behind the first character.
unfoldable pub fetch_reserved : Lexer → TokenKind × Lexer
unfolding first is_identifier_first fetch_ident_rest error
fetch_reserved s =
    if is_identifier_first (first s)
    then fetch_ident_rest (record s { reserved_word = true })
    else (unknown, error invalid_dollar s)

unfoldable pub fetch_continuation : Lexer → TokenKind × Lexer
unfolding eat_while first error_at error skip
fetch_continuation s =
    let t = eat_while is_space s in
    let u = eat_while not_lf t in
    let checked =
      if first t == lf
      then t
      else if ltb t.pos u.pos
      then error_at t.pos (u.pos - t.pos) expected_line_continuation u
      else error expected_line_continuation u in
    (whitespace, skip checked)

-- The rest of a multi-line string literal, after its three quotes.
unfoldable pub fetch_multi : Lexer → TokenKind × Lexer
unfolding first skip fetch_string_lit_multi_indent fetch_string_lit_multi
fetch_multi s =
    let (indent, t) = fetch_string_lit_multi_indent (if first s == lf then skip s else s) in
    fetch_string_lit_multi (record t { indent = indent })

unfoldable pub fetch_string : Lexer → TokenKind × Lexer
unfolding first second skip fetch_multi fetch_string_lit_single
fetch_string s =
    if first s == quote
    then (if second s == quote then fetch_multi (skip (skip s)) else (literal_string, skip s))
    else fetch_string_lit_single s

unfoldable pub fetch_annotation : Lexer → TokenKind × Lexer
unfolding first skip fetch_annotation_rest
fetch_annotation s =
    if first s == b'<'
    then (post_annotation, fetch_annotation_rest (skip s))
    else (pre_annotation, fetch_annotation_rest s)

unfoldable pub fetch_unknown : ℕ → Lexer → TokenKind × Lexer
unfolding error_at
fetch_unknown c s = (unknown, error_at s.offset (s.pos - s.offset) (unicode_value c (c == b'\t')) s)

-- A symbol of one character.
unfoldable pub symbol : ℕ → Option TokenKind
symbol c =
    if c == b'*'
    then some star
    else if c == b'+'
    then some plus
    else if c == b'/'
    then some slash
    else if c == b'='
    then some equals
    else if c == b';'
    then some semi
    else if c == b':'
    then some colon
    else if c == b','
    then some comma
    else if c == b'('
    then some left_paren
    else if c == b'{'
    then some left_curly
    else if c == b')'
    then some right_paren
    else if c == b'}'
    then some right_curly
    else if c == b'['
    then some left_square
    else if c == b']'
    then some right_square
    else none

unfoldable pub fetch_symbol : ℕ → Lexer → TokenKind × Lexer
unfolding symbol first skip error fetch_unknown
fetch_symbol c s =
    if c == b'-'
    then (if first s == b'>' then (right_arrow, skip s) else (minus, s))
    else if c == b'<'
    then (if first s == b'<' then (shift_left, skip s) else (unknown, error lone_less s))
    else if c == b'>'
    then (if first s == b'>' then (shift_right, skip s) else (unknown, error lone_greater s))
    else (elim (symbol c) [ none ↦ fetch_unknown c s | some kind ↦ (kind, s) ])

module _ (is_xid_continue : ℕ → Bool) where
  unfoldable pub fetch_zero : Lexer → TokenKind × Lexer
  unfolding first skip is_digit_of error fetch_number
  fetch_zero s =
      if first s == b'x' || first s == b'X'
      then (let t = skip s in
          fetch_number is_xid_continue 16
            (if is_digit_of 16 (first t) then t else error invalid_number t))
      else fetch_number is_xid_continue 10 s

  unfoldable pub fetch_dot : Lexer → TokenKind × Lexer
  unfolding first is_ascii_digit fetch_fraction
  fetch_dot s = if is_ascii_digit (first s) then fetch_fraction is_xid_continue s else (dot, s)

  -- The match of `fetch_token` on the first character, `s` being the state behind it.
  unfoldable pub fetch_from : ℕ → Lexer → TokenKind × Lexer
  unfolding eat_while fetch_reserved is_identifier_first fetch_ident_rest fetch_zero fetch_number
      fetch_continuation fetch_string fetch_dot eat_line_comment fetch_annotation fetch_symbol
  fetch_from c s =
      if c == b' '
      then (whitespace, eat_while is_space s)
      else if c == b'$'
      then fetch_reserved s
      else if is_identifier_first c
      then fetch_ident_rest s
      else if c == b'0'
      then fetch_zero s
      else if within b'1' b'9' c
      then fetch_number is_xid_continue 10 s
      else if c == b'\\'
      then fetch_continuation s
      else if c == quote
      then fetch_string s
      else if c == b'.'
      then fetch_dot s
      else if c == b'#'
      then (comment, eat_line_comment s)
      else if c == lf
      then (eol, eat_while is_lf s)
      else if c == b'@'
      then fetch_annotation s
      else fetch_symbol c s

  unfoldable pub fetch_token : Lexer → TokenKind × Lexer
  unfolding bump skip fetch_from
  fetch_token s = elim (bump s).0 [ none ↦ (eof, s) | some c ↦ fetch_from c (skip s) ]
