-- ===== src/Lexer/Scan.antt =====
-- fpp_lexer/src/lexer.rs: the functions that read the rest of a token. Each gives the kind of the token,
-- where the source does, and the state behind it. A loop has one more than the number of characters as
-- its fuel, since each round reads a character or is the last one.
use fpp_tools.Prelude.{
  ℕ, zero, suc, ◌+◌, ◌-◌, ◌==◌, leb, Bool, Option, not, ◌&&◌, ◌||◌, none, some, if◌then◌else◌,
  length,
}
use fpp_tools.Lexer.Chars.{
  lf, is_ascii_digit, is_digit_of, is_identifier_rest, is_identifier_part, len_utf8,
}
use fpp_tools.Lexer.Token.{
  TokenKind, identifier, literal_float, literal_int, literal_string, literal_multiline_string,
}
use fpp_tools.Lexer.Cursor.{
  missing_closing_quote, unclosed_multiline_string, invalid_number, Lexer, error_at, error,
  is_at_end, bump, first, second, third, skip, stall, eat_while,
}

abbrev pub not_lf : ℕ → Bool
not_lf c = not (c == lf)

unfoldable pub eat_line_comment : Lexer → Lexer
unfolding eat_while
eat_line_comment s = eat_while not_lf s

unfoldable pub fetch_annotation_rest : Lexer → Lexer
unfolding eat_while
fetch_annotation_rest s = eat_while not_lf s

unfoldable pub fetch_ident_rest : Lexer → TokenKind × Lexer
unfolding eat_while is_identifier_rest
fetch_ident_rest s = (identifier, eat_while is_identifier_rest s)

unfoldable pub indent_loop : ℕ → ℕ → Lexer → ℕ × Lexer
unfolding first skip stall
indent_loop zero indent s = (indent, stall s)
indent_loop (suc fuel) indent s =
    let rest = indent_loop fuel (indent + 1) (skip s) in
    if first s == b' ' then rest else (indent, s)

unfoldable pub fetch_string_lit_multi_indent : Lexer → ℕ × Lexer
unfolding indent_loop
fetch_string_lit_multi_indent s = indent_loop (suc (length s.chars)) 0 s

abbrev pub quote : ℕ
quote = b'"'

abbrev pub backslash : ℕ
backslash = b'\\'

-- One round of the loop over a multi-line string, on what `bump` returns, with `loop` for the rounds
-- that follow.
unfoldable pub multi_round : (Lexer → Lexer) → Lexer → Option ℕ → Lexer
unfolding skip first second error_at
multi_round loop s none = error_at s.offset 3 unclosed_multiline_string (skip s)
multi_round loop s (some c) =
    let t = skip s in
    let again = loop t in
    let escaped = loop (skip t) in
    if c == quote
    then (if first t == quote && second t == quote then skip (skip t) else again)
    else if c == backslash
    then escaped
    else again

unfoldable pub multi_loop : ℕ → Lexer → Lexer
unfolding bump multi_round stall
multi_loop zero s = stall s
multi_loop (suc fuel) s = multi_round (multi_loop fuel) s (bump s).0

unfoldable pub fetch_string_lit_multi : Lexer → TokenKind × Lexer
unfolding multi_loop
fetch_string_lit_multi s = (literal_multiline_string s.indent, multi_loop (suc (length s.chars)) s)

-- One round of the loop over a single-line string: `t` is the state behind the character.
unfoldable pub single_char : (Lexer → Lexer) → Lexer → Option ℕ → Lexer
unfolding skip first is_at_end error
single_char loop t none = loop t
single_char loop t (some c) =
    let again = loop t in
    let escaped = loop (skip t) in
    if c == quote
    then t
    else if c == backslash
    then (if first t == lf || is_at_end t then error missing_closing_quote t else escaped)
    else again

unfoldable pub single_round : (Lexer → Lexer) → Lexer → Lexer
unfolding bump skip first is_at_end error single_char
single_round loop s =
    let more = single_char loop (skip s) (bump s).0 in
    if first s == lf || is_at_end s then error missing_closing_quote s else more

unfoldable pub single_loop : ℕ → Lexer → Lexer
unfolding single_round stall
single_loop zero s = stall s
single_loop (suc fuel) s = single_round (single_loop fuel) s

unfoldable pub fetch_string_lit_single : Lexer → TokenKind × Lexer
unfolding single_loop
fetch_string_lit_single s = (literal_string, single_loop (suc (length s.chars)) s)

abbrev pub is_exponent_mark : ℕ → Bool
is_exponent_mark c = c == b'e' || c == b'E'

abbrev pub is_sign : ℕ → Bool
is_sign c = c == b'+' || c == b'-'

-- The exponent of a floating point number.
unfoldable pub fetch_exponent : Lexer → Lexer
unfolding first second third skip is_ascii_digit eat_while
fetch_exponent s =
    let lookahead = if is_sign (second s) then third s else second s in
    if is_exponent_mark (first s) && is_ascii_digit lookahead
    then (let t = skip s in eat_while is_ascii_digit (if is_sign (first t) then skip t else t))
    else s

-- `is_xid_continue` is the Unicode table of the library that the source calls.
module _ (is_xid_continue : ℕ → Bool) where
  unfoldable pub check_no_letter : Lexer → Lexer
  unfolding first is_identifier_part is_at_end error_at len_utf8
  check_no_letter s =
      let c = first s in
      if is_identifier_part is_xid_continue c && (leb b' ' c && not (is_at_end s))
      then error_at s.offset (s.pos - s.offset + len_utf8 c) invalid_number s
      else s

  unfoldable pub fetch_fraction : Lexer → TokenKind × Lexer
  unfolding eat_while is_ascii_digit fetch_exponent check_no_letter
  fetch_fraction s = (literal_float, check_no_letter (fetch_exponent (eat_while is_ascii_digit s)))

  unfoldable pub fetch_number : ℕ → Lexer → TokenKind × Lexer
  unfolding eat_while is_digit_of first skip fetch_fraction
  fetch_number base s =
      let t = eat_while (is_digit_of base) s in
      if first t == b'.' && base == 10
      then fetch_fraction (skip t)
      else if is_exponent_mark (first t) && base == 10
      then fetch_fraction t
      else (literal_int, t)
