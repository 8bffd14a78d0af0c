-- ===== src/Lexer/Lexes/Fetched.antt =====
-- fpp_lexer/src/lexer.rs: the step of `fetch_token`, arm by arm.
use fpp_tools.Prelude.{
  ℕ, suc, ◌+◌, ◌-◌, ◌==◌, ltb, ltb→lt, ◌≤◌, ◌<◌, ◌≡◌, inl, inr, refl, sym, subst, Bool, true, 
  ◌||◌, Option, none, some, if◌then◌else◌, length, arith,
}
use fpp_tools.Lexer.Chars.{
  lf, within, is_ascii_digit, is_digit_of, is_identifier_first, is_identifier_rest,
}
use fpp_tools.Lexer.Token.{
  TokenKind, whitespace, comment, unknown, identifier, post_annotation, pre_annotation, dot, eol,
  literal_string, literal_multiline_string, minus, right_arrow, shift_left, shift_right,
}
use fpp_tools.Lexer.Cursor.{
  Lexer, invalid_dollar, invalid_number, expected_line_continuation, lone_less, lone_greater, first,
  second, skip, eat_while, peek_chars,
}
use fpp_tools.Lexer.Scan.{
  not_lf, eat_line_comment, fetch_annotation_rest, fetch_ident_rest, fetch_string_lit_multi_indent,
  fetch_string_lit_multi, fetch_string_lit_single, quote, indent_loop,
}
use fpp_tools.Lexer.Fetch.{
  is_space, is_lf, fetch_reserved, fetch_continuation, fetch_multi, fetch_string, fetch_annotation,
  fetch_unknown, symbol, fetch_symbol, fetch_zero, fetch_dot, fetch_from,
}
use fpp_tools.Lexer.Lexes.{
  Lexes-refl, Lexes-trans, Lexes-error_at, Lexes-error, Lexes-started, Lexes-if, Lexes-skip,
  Lexes-eat_while, Lexes-retag, skip-advances, Lexes-if-eq,
}
use fpp_tools.Lexer.Skips.{chars-cases, skip-char}
use fpp_tools.Lexer.Lexes.Loops.{
  Fetches, Fetches-if, Fetches-if-eq, fetched, Fetches-behind, Lexes-skip_two, indent_loop-Fetches,
  multi_loop-Lexes, single_loop-Lexes, fetch_fraction-Fetches, fetch_number-Fetches,
}

fetch_ident_rest-Fetches : (s : Lexer) → Fetches s (fetch_ident_rest s)
unfolding fetch_ident_rest
fetch_ident_rest-Fetches s = fetched identifier (Lexes-eat_while is_identifier_rest s)

fetch_reserved-Fetches : (s : Lexer) → s.offset < s.pos → Fetches s (fetch_reserved s)
unfolding fetch_reserved
fetch_reserved-Fetches s h =
    Fetches-if (is_identifier_first (first s))
      (Fetches-behind (Lexes-retag s s.indent true) (fetch_ident_rest-Fetches _))
      (fetched unknown (Lexes-error s invalid_dollar h))

fetch_continuation-Fetches : (s : Lexer) → s.offset < s.pos → Fetches s (fetch_continuation s)
unfolding fetch_continuation
fetch_continuation-Fetches s h =
    let t = eat_while is_space s in
    let u = eat_while not_lf t in
    let spaces = Lexes-eat_while is_space s in
    let line = Lexes-eat_while not_lf t in
    let both = Lexes-trans spaces line in
    let started = Lexes-started both h in
    fetched whitespace (
      Lexes-trans
        (Lexes-if (first t == lf) spaces (
          Lexes-if-eq (ltb t.pos u.pos)
            (λ e. Lexes-trans both (
              Lexes-error_at u t.pos (u.pos - t.pos) expected_line_continuation
                (omega (arith, Lexes-started spaces h, line.keeps_offset))
                (omega (arith, ltb→lt t.pos u.pos e)) (omega (arith, ltb→lt t.pos u.pos e))))
            (λ e. Lexes-trans both (Lexes-error u expected_line_continuation started))))
        (Lexes-skip _))

-- A quote that is looked at is read by `skip`.
skip-quote : (s : Lexer) → first s == quote ≡ true → s.pos < (skip s).pos
unfolding first peek_chars
skip-quote s e = elim (chars-cases s.chars) [
  | inl ec ↦ absurd (let clash = subst (λ xs. peek_chars 0 xs == quote ≡ true) ec e in cc)
  | inr (c, (cs, ec)) ↦ skip-advances s c cs ec
]

first-skip : (s : Lexer) → first s == quote ≡ true → first (skip s) ≡ second s
unfolding first second peek_chars
first-skip s e = elim (chars-cases s.chars) [
  | inl ec ↦ absurd (let clash = subst (λ xs. peek_chars 0 xs == quote ≡ true) ec e in cc)
  | inr (c, (cs, ec)) ↦ rw (skip-char s c cs ec, ec) refl
]

-- The three quotes are read.
fetch_multi-Fetches : (s : Lexer) → s.offset + 3 ≤ s.pos → Fetches s (fetch_multi s)
unfolding fetch_multi fetch_string_lit_multi fetch_string_lit_multi_indent
fetch_multi-Fetches s h =
    let t = if first s == lf then skip s else s in
    let line = Lexes-if (first s == lf) (Lexes-skip s) (Lexes-refl s) in
    let (indent, u) = indent_loop (suc (length t.chars)) 0 t in
    let spaces = (indent_loop-Fetches (suc (length t.chars)) 0 t (omega arith)).lexes in
    let both = Lexes-trans (Lexes-trans line spaces) (Lexes-retag u indent u.reserved_word) in
    fetched (literal_multiline_string indent) (
      Lexes-trans both
        (multi_loop-Lexes (suc (length u.chars)) _ (omega (arith, both.counts, both.keeps_offset))
          (omega arith)))

fetch_string-Fetches : (s : Lexer) → s.offset < s.pos → Fetches s (fetch_string s)
unfolding fetch_string fetch_string_lit_single
fetch_string-Fetches s h =
    let two = Lexes-skip_two s in
    Fetches-if-eq (first s == quote)
      (λ e.
        Fetches-if-eq (second s == quote)
          (λ e'.
            let next_quote = first-skip s e in
            let advanced =
              skip-quote (skip s) (subst (λ c. c == quote ≡ true) (sym next_quote) e') in
            Fetches-behind two (
              fetch_multi-Fetches (skip (skip s))
                (omega (arith, two.keeps_offset, advanced, skip-quote s e))))
          (fetched literal_string (Lexes-skip s)))
      (fetched literal_string (single_loop-Lexes (suc (length s.chars)) s h (omega arith)))

fetch_annotation-Fetches : (s : Lexer) → Fetches s (fetch_annotation s)
unfolding fetch_annotation fetch_annotation_rest
fetch_annotation-Fetches s =
    Fetches-if (first s == b'<')
      (fetched post_annotation (Lexes-trans (Lexes-skip s) (Lexes-eat_while not_lf (skip s))))
      (fetched pre_annotation (Lexes-eat_while not_lf s))

fetch_unknown-Fetches : (c : ℕ) (s : Lexer) → s.offset < s.pos → Fetches s (fetch_unknown c s)
unfolding fetch_unknown
fetch_unknown-Fetches c s h =
    fetched unknown
      (Lexes-error_at s s.offset (s.pos - s.offset) _ (omega arith) (omega arith) (omega arith))

fetch_symbol-Fetches : (c : ℕ) (s : Lexer) → s.offset < s.pos → Fetches s (fetch_symbol c s)
unfolding fetch_symbol
fetch_symbol-Fetches c s h =
    Fetches-if (c == b'-')
      (Fetches-if (first s == b'>') (fetched right_arrow (Lexes-skip s))
        (fetched minus (Lexes-refl s)))
      (Fetches-if (c == b'<')
        (Fetches-if (first s == b'<') (fetched shift_left (Lexes-skip s))
          (fetched unknown (Lexes-error s lone_less h)))
        (Fetches-if (c == b'>')
          (Fetches-if (first s == b'>') (fetched shift_right (Lexes-skip s))
            (fetched unknown (Lexes-error s lone_greater h)))
          (one_character (symbol c))))
  where
    one_character :
        (o : Option TokenKind)
        → Fetches {A = TokenKind} s (elim o [ none ↦ fetch_unknown c s | some kind ↦ (kind, s) ])
    one_character none = fetch_unknown-Fetches c s h
    one_character (some kind) = fetched kind (Lexes-refl s)

module _ (is_xid_continue : ℕ → Bool) where
  fetch_zero-Fetches : (s : Lexer) → s.offset < s.pos → Fetches s (fetch_zero is_xid_continue s)
  unfolding fetch_zero
  fetch_zero-Fetches s h =
      let t = skip s in
      let started = Lexes-started (Lexes-skip s) h in
      let checked =
        Lexes-if (is_digit_of 16 (first t)) (Lexes-skip s)
          (Lexes-trans (Lexes-skip s) (Lexes-error t invalid_number started)) in
      Fetches-if (first s == b'x' || first s == b'X')
        (Fetches-behind checked
          (fetch_number-Fetches is_xid_continue 16 _ (Lexes-started checked h)))
        (fetch_number-Fetches is_xid_continue 10 s h)

  fetch_dot-Fetches : (s : Lexer) → s.offset < s.pos → Fetches s (fetch_dot is_xid_continue s)
  unfolding fetch_dot
  fetch_dot-Fetches s h =
      Fetches-if (is_ascii_digit (first s)) (fetch_fraction-Fetches is_xid_continue s h)
        (fetched dot (Lexes-refl s))

  pub fetch_from-Fetches :
      (c : ℕ) (s : Lexer) → s.offset < s.pos → Fetches s (fetch_from is_xid_continue c s)
  unfolding fetch_from eat_line_comment
  fetch_from-Fetches c s h =
      Fetches-if (c == b' ') (fetched whitespace (Lexes-eat_while is_space s)) (
        Fetches-if (c == b'$') (fetch_reserved-Fetches s h) (
          Fetches-if (is_identifier_first c) (fetch_ident_rest-Fetches s) (
            Fetches-if (c == b'0') (fetch_zero-Fetches s h) (
              Fetches-if (within b'1' b'9' c) (fetch_number-Fetches is_xid_continue 10 s h) (
                Fetches-if (c == b'\\') (fetch_continuation-Fetches s h) (
                  Fetches-if (c == quote) (fetch_string-Fetches s h) (
                    Fetches-if (c == b'.') (fetch_dot-Fetches s h) (
                      Fetches-if (c == b'#') (fetched comment (Lexes-eat_while not_lf s)) (
                        Fetches-if (c == lf) (fetched eol (Lexes-eat_while is_lf s)) (
                          Fetches-if (c == b'@') (fetch_annotation-Fetches s)
                            (fetch_symbol-Fetches c s h)))))))))))
