-- ===== src/Lexer/Lexes/Loops.antt =====
-- fpp_lexer/src/lexer.rs: the steps of the loops over string literals, of numbers and of identifiers.
use fpp_tools.Prelude.{
  ℕ, zero, suc, ◌+◌, ◌-◌, ◌==◌, ◌≤◌, ◌<◌, ◌≡◌, refl, subst, Bool, true, false, not, ◌&&◌, ◌||◌,
  List, [], ◌∷◌, none, some, if◌then◌else◌, length, arith, leb, inl, inr, ◌⊎◌,
}
use fpp_tools.Lexer.Chars.{lf, byte_len, is_ascii_digit, is_digit_of, is_identifier_part, len_utf8}
use fpp_tools.Lexer.Token.{literal_int, literal_float}
use fpp_tools.Lexer.Cursor.{
  Lexer, missing_closing_quote, unclosed_multiline_string, invalid_number, error, is_at_end, bump,
  first, second, skip, eat_while, read_char, peek_chars, is_empty_text, error_at,
}
use fpp_tools.Lexer.Scan.{
  indent_loop, multi_round, single_char, single_round, multi_loop, single_loop, quote, backslash,
  is_exponent_mark, is_sign, fetch_exponent, check_no_letter, fetch_fraction, fetch_number,
}
use fpp_tools.Lexer.Lexes.{
  Lexes, Lexes-refl, Lexes-trans, Lexes-error_at, Lexes-error, Lexes-started, Lexes-if, Lexes-skip,
  Lexes-eat_while, Lexes-if-eq,
}
use fpp_tools.Lexer.Skips.{skip-shorter, skip-le, not_at_end, bump-some, first-space}

-- `Lexes` for what comes with the state behind it.
pub record Fetches {A : Type 0} (s : Lexer) (x : A × Lexer) : Type 0 where
  pub lexes : Lexes s x.1

pub Fetches-if :
    {A : Type 0} {s : Lexer} (b : Bool) {x y : A × Lexer}
    → Fetches s x
    → Fetches s y
    → Fetches s (if b then x else y)
Fetches-if true h k = h
Fetches-if false h k = k

pub Fetches-if-eq :
    {A : Type 0} {s : Lexer} (b : Bool) {x y : A × Lexer}
    → (b ≡ true → Fetches s x)
    → Fetches s y
    → Fetches s (if b then x else y)
Fetches-if-eq true h k = h refl
Fetches-if-eq false h k = k

pub fetched : {A : Type 0} {s t : Lexer} (a : A) → Lexes s t → Fetches s (a, t)
fetched a h = record { lexes = h }

pub Fetches-behind :
    {A : Type 0} {s t : Lexer} {x : A × Lexer} → Lexes s t → Fetches t x → Fetches s x
Fetches-behind h k = record { lexes = Lexes-trans h k.lexes }

-- Two characters are skipped.
pub Lexes-skip_two : (s : Lexer) → Lexes s (skip (skip s))
Lexes-skip_two s = Lexes-trans (Lexes-skip s) (Lexes-skip (skip s))

pub indent_loop-Fetches :
    (n indent : ℕ) (s : Lexer) → length s.chars < n → Fetches s (indent_loop n indent s)
unfolding indent_loop
indent_loop-Fetches zero indent s enough = absurd (omega arith)
indent_loop-Fetches (suc n) indent s enough = Fetches-if-eq (first s == b' ')
    (λ e.
      let shorter = skip-shorter s (first-space s e) in
      Fetches-behind (Lexes-skip s) (indent_loop-Fetches n (indent + 1) (skip s) (omega arith)))
    (fetched indent (Lexes-refl s))

-- The opening quotes of the literal are read.
pub multi_loop-Lexes :
    (n : ℕ) (s : Lexer) → s.offset + 3 ≤ s.pos → length s.chars < n → Lexes s (multi_loop n s)
unfolding multi_loop multi_round
multi_loop-Lexes zero s h enough = absurd (omega arith)
multi_loop-Lexes (suc n) s h enough =
    let t = skip s in
    let step = Lexes-skip s in
    let step_two = Lexes-skip t in
    (elim (bump s).0
      as (λ o. (bump s).0 ≡ o → Lexes s (elim o [
        | none ↦ error_at s.offset 3 unclosed_multiline_string t
        | some c ↦
            if c == quote
            then (if first t == quote && second t == quote then skip (skip t) else multi_loop n t)
            else if c == backslash
            then multi_loop n (skip t)
            else multi_loop n t
      ])) [
        | none ↦ λ e. Lexes-trans step (
            subst (λ k. Lexes t (error_at k 3 unclosed_multiline_string t)) step.keeps_offset
              (Lexes-error_at t t.offset 3 unclosed_multiline_string (omega arith) (omega arith)
                (omega (arith, step.counts, step.keeps_offset))))
        | some c ↦ λ e.
            let shorter = skip-shorter s (bump-some s c e) in
            let again =
              Lexes-trans step
                (multi_loop-Lexes n t (omega (arith, step.counts, step.keeps_offset))
                  (omega arith)) in
            let escaped = Lexes-trans step (
              Lexes-trans step_two (
                multi_loop-Lexes n (skip t)
                  (omega
                    (arith, step.counts, step.keeps_offset, step_two.counts, step_two.keeps_offset))
                  (omega (arith, skip-le t)))) in
            Lexes-if (c == quote) (Lexes-if _ (Lexes-trans step (Lexes-skip_two t)) again)
              (Lexes-if (c == backslash) escaped again)
      ]) refl

pub single_loop-Lexes :
    (n : ℕ) (s : Lexer) → s.offset < s.pos → length s.chars < n → Lexes s (single_loop n s)
unfolding single_loop single_round single_char
single_loop-Lexes zero s h enough = absurd (omega arith)
single_loop-Lexes (suc n) s h enough =
    let t = skip s in
    let step = Lexes-skip s in
    let started = Lexes-started step h in
    Lexes-if-eq (first s == lf || is_at_end s) (λ e. Lexes-error s missing_closing_quote h) λ e.
      let shorter = skip-shorter s (not_at_end (first s == lf) (is_at_end s) e) in
      let again = Lexes-trans step (single_loop-Lexes n t started (omega arith)) in
      let escaped = Lexes-trans step (
        Lexes-trans (Lexes-skip t)
          (single_loop-Lexes n (skip t) (Lexes-started (Lexes-skip t) started)
            (omega (arith, skip-le t)))) in
      elim (bump s).0
        as (λ o. Lexes s (elim o [
          | none ↦ single_loop n t
          | some c ↦
              if c == quote
              then t
              else if c == backslash
              then (if first t == lf || is_at_end t
                  then error missing_closing_quote t
                  else single_loop n (skip t))
              else single_loop n t
        ])) [
          | none ↦ again
          | some c ↦ Lexes-if (c == quote) step (
              Lexes-if (c == backslash)
                (Lexes-if _ (Lexes-trans step (Lexes-error t missing_closing_quote started))
                  escaped)
                again)
        ]

pub fetch_exponent-Lexes : (s : Lexer) → Lexes s (fetch_exponent s)
unfolding fetch_exponent
fetch_exponent-Lexes s =
    let t = skip s in
    Lexes-if _
      (Lexes-trans (Lexes-skip s) (
        Lexes-trans (Lexes-if (is_sign (first t)) (Lexes-skip t) (Lexes-refl t))
          (Lexes-eat_while is_ascii_digit _)))
      (Lexes-refl s)

-- A character that is read is the one that stands there, or a line feed.
read_char-cases : (c : ℕ) (cs : List ℕ) → ((read_char c cs).char ≡ lf) ⊎ ((read_char c cs).char ≡ c)
unfolding read_char
read_char-cases c cs = ground arith

-- A character that is no line feed and is not at the end stands in the text as it is looked at.
peek_chars-byte_len :
    (xs : List ℕ)
    → leb b' ' (peek_chars 0 xs) && not (is_empty_text xs) ≡ true
    → len_utf8 (peek_chars 0 xs) ≤ byte_len xs
unfolding byte_len peek_chars
peek_chars-byte_len [] h = ground arith
peek_chars-byte_len (c ∷ cs) h = elim (read_char-cases c cs) [
  | inl e ↦ absurd (let clash = subst (λ n. leb b' ' n && true ≡ true) e h in cc)
  | inr e ↦ rw e (omega arith)
]

module _ (is_xid_continue : ℕ → Bool) where
  check_no_letter-Lexes :
      (s : Lexer) → s.offset < s.pos → Lexes s (check_no_letter is_xid_continue s)
  unfolding check_no_letter
  check_no_letter-Lexes s h =
      let c = first s in
      letter_if (is_identifier_part is_xid_continue c) (leb b' ' c && not (is_at_end s)) λ e.
        Lexes-error_at s s.offset (s.pos - s.offset + len_utf8 c) invalid_number (omega arith)
          (omega arith) (omega (arith, peek_chars-byte_len s.chars e))
    where
      letter_if :
          (a b : Bool) {t : Lexer} → (b ≡ true → Lexes s t) → Lexes s (if a && b then t else s)
      letter_if true true k = k refl
      letter_if true false k = Lexes-refl s
      letter_if false b k = Lexes-refl s

  pub fetch_fraction-Fetches :
      (s : Lexer) → s.offset < s.pos → Fetches s (fetch_fraction is_xid_continue s)
  unfolding fetch_fraction
  fetch_fraction-Fetches s h =
      let t = eat_while is_ascii_digit s in
      let digits = Lexes-eat_while is_ascii_digit s in
      let exponent = Lexes-trans digits (fetch_exponent-Lexes t) in
      fetched literal_float
        (Lexes-trans exponent (check_no_letter-Lexes (fetch_exponent t) (Lexes-started exponent h)))

  pub fetch_number-Fetches :
      (base : ℕ) (s : Lexer) → s.offset < s.pos → Fetches s (fetch_number is_xid_continue base s)
  unfolding fetch_number
  fetch_number-Fetches base s h =
      let t = eat_while (is_digit_of base) s in
      let digits = Lexes-eat_while (is_digit_of base) s in
      let dotted = Lexes-trans digits (Lexes-skip t) in
      let behind_dot = fetch_fraction-Fetches (skip t) (Lexes-started dotted h) in
      let behind_digits = fetch_fraction-Fetches t (Lexes-started digits h) in
      Fetches-if (first t == b'.' && base == 10) (Fetches-behind dotted behind_dot) (
        Fetches-if (is_exponent_mark (first t) && base == 10) (Fetches-behind digits behind_digits)
          (fetched literal_int digits))
